-- ===== src/Session/RetryCache/Laws.antt =====
-- How long internal/session/whatsmeow/retry_cache.go keeps a message that was sent.
use apime.Common.{
  ℕ, ◌+◌, ◌≤◌, String, ◌≡◌, refl, ap, ◌∙◌, sym, Bool, true, false, Option, none, some, List, [],
  ◌∷◌, ◌==◌, arith, eq_refl, eq_iff, if◌then◌else◌, Bool-cases, inl, inr, All,
}
use apime.Common.Map.{
  Map, get, put, retain, Distinct, get-put, get-delete, get-retain, Distinct-put, Distinct-delete,
  Distinct-retain,
}
use apime.Message.Repo.{Message}
use apime.Session.RetryCache.{
  outgoing_msg_cache_ttl, status_msg_cache_ttl, OutgoingMsgEntry, same, is_fresh,
  cache_outgoing_message, from_entry, get_message_for_retry,
}

pub data Op {ℓ} (M : Type ℓ) : Type ℓ where
  caches : ℕ → String → Bool → Option M → Op M
  retries : ℕ → String → Option Message → Op M

abbrev life : Bool → ℕ
life is_status = if is_status then status_msg_cache_ttl else outgoing_msg_cache_ttl

module _ {ℓ} {M : Type ℓ} where
  unfoldable pub step : Op M → Map (OutgoingMsgEntry M) → Map (OutgoingMsgEntry M)
  step (caches now id is_status msg) cache = cache_outgoing_message now id is_status msg cache
  step (retries now id row) cache = (get_message_for_retry now id row cache).1

  unfoldable pub steps : List (Op M) → Map (OutgoingMsgEntry M) → Map (OutgoingMsgEntry M)
  unfolding step
  steps [] cache = cache
  steps (op ∷ ops) cache = steps ops (step op cache)

  -- An access no later than the instant `e` that does not send the message `id` again.
  abbrev pub Before : String → ℕ → Op M → Type 0
  Before id e (caches now id' is_status msg) = (now ≤ e) × ((id' == id) ≡ false)
  Before id e (retries now id' row) = now ≤ e

  record Holds (id : String) (entry : OutgoingMsgEntry M) (cache : Map (OutgoingMsgEntry M))
      : Type ℓ where
    distinct : Distinct cache
    found : get id cache ≡ some entry

  Holds-put :
      (now : ℕ) (id : String) (new : OutgoingMsgEntry M) (entry : OutgoingMsgEntry M) (id' : String)
      (cache : Map (OutgoingMsgEntry M))
      → get id (put id' new cache) ≡ some entry
      → Distinct cache
      → is_fresh now entry ≡ true
      → Holds id entry (retain (λ k e. is_fresh now e) (put id' new cache))
  Holds-put now id new entry id' cache found d fresh = record {
    distinct =
        Distinct-retain (λ k e. is_fresh now e) (put id' new cache) (Distinct-put id' new cache d);
    found =
        get-retain (λ k e. is_fresh now e) id (put id' new cache) (Distinct-put id' new cache d)
        ∙ rw (found, fresh) refl;
  }

  fresh_until :
      (now : ℕ) (entry : OutgoingMsgEntry M)
      → now ≤ entry.at + entry.ttl
      → is_fresh now entry ≡ true
  unfolding is_fresh
  fresh_until now entry early = ground (arith, early)

  abbrev freshness : ℕ → Option (OutgoingMsgEntry M) → Bool
  freshness now none = true
  freshness now (some e) = is_fresh now e

  Holds-retry :
      (now : ℕ) (id : String) (entry : OutgoingMsgEntry M) (id' : String)
      (o : Option (OutgoingMsgEntry M)) (row : Option Message) (cache : Map (OutgoingMsgEntry M))
      → get id' cache ≡ o
      → is_fresh now entry ≡ true
      → Holds id entry cache
      → Holds id entry (from_entry now id' o row cache).1
  Holds-retry now id entry id' none row cache at fresh v = v
  Holds-retry now id entry id' (some e) row cache at fresh v = elim (Bool-cases (is_fresh now e)) [
    | inl live ↦ rw live v
    | inr over ↦ rw over (elim (Bool-cases (id' == id)) [
      | inl it ↦
          let is_entry : some e ≡ some entry =
            sym at ∙ ap (λ k. get k cache) ((eq_iff id' id).0 it) ∙ v.found in
          absurd (ground (arith, over, ap (freshness now) is_entry, fresh))
      | inr other ↦ record {
        distinct = Distinct-delete id' cache v.distinct;
        found = get-delete id' id cache ∙ rw other v.found;
      }
    ])
  ]

  Holds-step :
      (id : String) (entry : OutgoingMsgEntry M) (op : Op M) (cache : Map (OutgoingMsgEntry M))
      → Before id (entry.at + entry.ttl) op
      → Holds id entry cache
      → Holds id entry (step op cache)
  unfolding step cache_outgoing_message get_message_for_retry
  Holds-step id entry (caches now id' is_status none) cache w v = v
  Holds-step id entry (caches now id' is_status (some msg)) cache w v =
      elim (Bool-cases (id' == "")) [
        | inl blank ↦ rw (blank, step, cache_outgoing_message) v
        | inr named ↦
            rw (named, step, cache_outgoing_message)
              (Holds-put now id _ entry id' cache (get-put id' id _ cache ∙ rw w.1 v.found)
                v.distinct (fresh_until now entry w.0))
      ]
  Holds-step id entry (retries now id' row) cache w v =
      Holds-retry now id entry id' (get id' cache) row cache refl (fresh_until now entry w) v

  Holds-steps :
      (id : String) (entry : OutgoingMsgEntry M) (ops : List (Op M))
      (cache : Map (OutgoingMsgEntry M))
      → All (Before id (entry.at + entry.ttl)) ops
      → Holds id entry cache
      → Holds id entry (steps ops cache)
  unfolding steps
  Holds-steps id entry [] cache w v = v
  Holds-steps id entry (op ∷ ops) cache w v =
      Holds-steps id entry ops (step op cache) w.1 (Holds-step id entry op cache w.0 v)

  -- A message sent at `t` is what a retry gets, with its media, for 30 minutes, and for 24 hours if it
  -- is a status, whatever else is sent or retried meanwhile and whatever the table says.
  pub retry_gets_sent :
      (t now : ℕ) (id : String) (is_status : Bool) (msg : M) (row : Option Message)
      (ops : List (Op M)) (cache : Map (OutgoingMsgEntry M))
      → Distinct cache
      → (id == "") ≡ false
      → All (Before id (t + life is_status)) ops
      → now ≤ t + life is_status
      → (get_message_for_retry now id row
          (steps ops (cache_outgoing_message t id is_status (some msg) cache))).0
        ≡ some (same msg)
  unfolding cache_outgoing_message get_message_for_retry
  retry_gets_sent t now id is_status msg row ops cache d named w early =
      let entry : OutgoingMsgEntry M = record { msg = msg; at = t; ttl = life is_status } in
      let stored : Holds id entry (cache_outgoing_message t id is_status (some msg) cache) =
        rw (named, cache_outgoing_message)
          (Holds-put t id entry entry id cache (get-put id id entry cache ∙ rw (eq_refl id) refl) d
            (fresh_until t entry (omega arith))) in
      let v = Holds-steps id entry ops _ w stored in
      rw (v.found, fresh_until now entry early, get_message_for_retry) refl
