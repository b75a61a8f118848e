-- ===== src/Session/Connection/Timers.antt =====
-- Which timers of handleEvent are pending.
use apime.Common.{
  ℕ, ◌≡◌, refl, ap, ◌∙◌, sym, Bool, true, false, Option, none, some, List, [], ◌∷◌, ◌++◌, length,
  eqb, eqb_iff, arith, Bool-cases, inl, inr,
}
use apime.Common.Heap.{get_elem?, modify, changed, get_elem?-modify, get_elem?-append}
use apime.Session.Connection.{TimerState, armed, running, stopped, done, stop, stop_timer}

abbrev pub is_armed : Option TimerState → Bool
is_armed (some (armed due)) = true
is_armed _ = false

abbrev pub is_running : Option TimerState → Bool
is_running (some running) = true
is_running _ = false

-- No timer is pending.
abbrev pub Quiet : List TimerState → Type 0
Quiet timers =
    (h : ℕ) → (is_running (get_elem? timers h) ≡ false) × (is_armed (get_elem? timers h) ≡ false)

-- No function of a timer has started and not ended, and the armed timer is the one in the map.
abbrev pub Tidy : Option ℕ → List TimerState → Type 0
Tidy debounce timers =
    (h : ℕ)
    → (is_running (get_elem? timers h) ≡ false)
      × (is_armed (get_elem? timers h) ≡ true → debounce ≡ some h)

pub Quiet-Tidy :
    (debounce : Option ℕ) (timers : List TimerState) → Quiet timers → Tidy debounce timers
Quiet-Tidy debounce timers q h = ((q h).0, λ a. absurd (ground (arith, a, (q h).1)))

abbrev pub pointer_or : ℕ → Option ℕ → ℕ
pointer_or n none = n
pointer_or n (some h) = h

stop_flags :
    (o : Option TimerState)
    → is_running o ≡ false
    → (is_running (changed o stop) ≡ false) × (is_armed (changed o stop) ≡ false)
unfolding stop
stop_flags none h = (refl, refl)
stop_flags (some (armed due)) h = (refl, refl)
stop_flags (some running) h = absurd (ground (arith, h))
stop_flags (some stopped) h = (refl, refl)
stop_flags (some done) h = (refl, refl)

same_pointer : {p h : ℕ} → some p ≡ some h → eqb p h ≡ false → ⊥
same_pointer {p} {h} e other = ground (arith, ap (λ o. pointer_or 0 o) e, other, eqb_iff p h)

not_armed :
    {debounce : Option ℕ} (timers : List TimerState) (h : ℕ)
    → Tidy debounce timers
    → (debounce ≡ some h → ⊥)
    → is_armed (get_elem? timers h) ≡ false
not_armed timers h v away = elim (Bool-cases (is_armed (get_elem? timers h))) [
  | inl a ↦ absurd (away ((v h).1 a))
  | inr calm ↦ calm
]

pub Quiet-stop_timer :
    (debounce : Option ℕ) (timers : List TimerState)
    → Tidy debounce timers
    → Quiet (stop_timer debounce timers)
unfolding stop_timer
Quiet-stop_timer none timers v h = ((v h).0, not_armed timers h v (λ e. ground (arith, e)))
Quiet-stop_timer (some p) timers v h = elim (Bool-cases (eqb p h)) [
  | inl same ↦
      let e : get_elem? (modify p stop timers) h ≡ changed (get_elem? timers h) stop =
        get_elem?-modify p h stop timers ∙ rw same refl in
      rw e (stop_flags (get_elem? timers h) (v h).0)
  | inr other ↦
      let e : get_elem? (modify p stop timers) h ≡ get_elem? timers h =
        get_elem?-modify p h stop timers ∙ rw other refl in
      rw e ((v h).0, not_armed timers h v (λ k. same_pointer k other))
]

-- A new timer becomes the one in the map.
pub Tidy-arm :
    (due : ℕ) (timers : List TimerState)
    → Quiet timers
    → Tidy (some (length timers)) (timers ++ (armed due ∷ []))
Tidy-arm due timers q h = elim (Bool-cases (eqb h (length timers))) [
  | inl last ↦
      let e : get_elem? (timers ++ (armed due ∷ [])) h ≡ some (armed due) =
        get_elem?-append h timers (armed due) ∙ rw last refl in
      rw e (refl, λ _. ap (λ n. some n) (sym ((eqb_iff h (length timers)).0 last)))
  | inr old ↦
      let e : get_elem? (timers ++ (armed due ∷ [])) h ≡ get_elem? timers h =
        get_elem?-append h timers (armed due) ∙ rw old refl in
      rw e ((q h).0, λ a. absurd (ground (arith, a, (q h).1)))
]
