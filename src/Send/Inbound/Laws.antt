-- ===== src/Send/Inbound/Laws.antt =====
-- The last message of a chat, over histories of internal/service/message/inbound_tracker.go.
use Prim.Native.String.{◌++◌}
use apime.Common.{
  ℕ, ◌+◌, ◌-◌, ◌≤◌, String, ◌≡◌, refl, ap, true, false, none, some, eq_iff, arith, leb,
}
use apime.Common.Map.{get, put, delete, get-put, get-delete}
use apime.Send.Inbound.{
  InboundEntry, Tracker, inbound_ttl, inbound_key, track_inbound, time_since_last_inbound, is_live,
  pop_last_inbound, has_recent_inbound,
}

module _ (normalize : String → String) where
  -- A message tracked at `t` and popped within 14 days is returned with its sender, once: the
  -- chat has no recent inbound from then on, and a second pop returns nothing. The time since the
  -- contact's last message is known before and after the pop. Any name that normalizes to the same
  -- chat finds it.
  pub popped_once :
      (t later after : ℕ) (instance_id chat chat' message_id sender : String) (tracker : Tracker)
      → normalize chat ≡ normalize chat'
      → later ≤ t + inbound_ttl
      → let tracked = track_inbound normalize t instance_id chat message_id sender tracker in
        let popped = pop_last_inbound normalize later instance_id chat' tracked in
        (popped.0 ≡ some (record { message_id = message_id; sender_jid = sender; tracked_at = t }))
        × (has_recent_inbound normalize later instance_id chat' tracked ≡ true)
        × (has_recent_inbound normalize after instance_id chat' popped.1 ≡ false)
        × ((pop_last_inbound normalize after instance_id chat' popped.1).0 ≡ none)
        × (time_since_last_inbound normalize after instance_id chat' tracked ≡ some (after - t))
        × (time_since_last_inbound normalize after instance_id chat' popped.1 ≡ some (after - t))
  unfolding track_inbound pop_last_inbound has_recent_inbound time_since_last_inbound is_live
      inbound_key
  popped_once t later after i chat chat' w sender tracker same soon =
      let k = inbound_key normalize i chat in
      let k' = inbound_key normalize i chat' in
      let e : InboundEntry = record { message_id = w; sender_jid = sender; tracked_at = t } in
      let one_key : k ≡ k' = ap (λ (c : String). i ++ ":" ++ c) same in
      let got : get k' (put k e tracker.entries) ≡ some e =
        ground (arith, get-put k k' e tracker.entries, eq_iff k k', one_key) in
      let at : get k' (put k t tracker.last_at) ≡ some t =
        ground (arith, get-put k k' t tracker.last_at, eq_iff k k', one_key) in
      let gone : get k' (delete k' (put k e tracker.entries)) ≡ none =
        ground (arith, get-delete k' k' (put k e tracker.entries), eq_iff k' k') in
      let live : leb (later - t) inbound_ttl ≡ true = ground arith in
      let popped : Tracker = record {
        entries = delete k' (put k e tracker.entries);
        last_at = put k t tracker.last_at;
      } in
      let is_popped : pop_last_inbound normalize later i chat'
            (track_inbound normalize t i chat w sender tracker)
          ≡ (some e, popped) =
        rw (got, live, pop_last_inbound) refl in
      rw (is_popped) (
        refl,
        rw (got, live, has_recent_inbound) refl,
        rw (gone, has_recent_inbound) refl,
        rw (gone, pop_last_inbound) refl,
        rw (at, time_since_last_inbound) refl,
        rw (at, time_since_last_inbound) refl,
      )
