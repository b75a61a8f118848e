-- ===== src/Examples.antt =====
-- Each theorem applied to one concrete run of the code.
mod Requests
mod Sends
mod Sending
mod Flows
mod Tables
mod Redis
mod Accounts
mod Auth
mod Calls
mod Webhooks
mod Contents
mod Resolving
mod Sessions
