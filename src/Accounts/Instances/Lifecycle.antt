-- ===== src/Accounts/Instances/Lifecycle.antt =====
-- Updates, deletions and rotations of internal/service/instance/service.go.
use apime.Common.{
  ℕ, String, ◌≡◌, refl, ap, ◌∙◌, none, some, eq_iff, arith, ok, Option-cases, inl, inr,
}
use apime.Common.Text.{trim_space}
use apime.Common.Time.{rfc3339}
use apime.Common.Table.{
  first, count_where, delete_where, count_where-delete_where_self, first-delete_where_self,
  first-update_where_self, first_holds,
}
use apime.Message.Repo.{of_instance}
use apime.Accounts.InstanceRepo.{
  Instance, World, Faults, get_by_id, has_instance_id, logged_for, delete_row, update_instance,
  update_row, scan_instance,
}
use apime.Accounts.Instances.{
  Service, UpdateInput, update, reload, apply_and_save, delete_events, delete_messages, purge,
  delete, rotate, rotate_token, apply_update, or_keep, trimmed,
}

-- A deletion that ends without an error leaves no row of the instance, no message and no event of
-- it, whichever of these tables the service was given.
pub delete_leaves_nothing :
    (s : Service) (f : Faults) (id : String) (w : World)
    → (delete s f id w).0 ≡ none
    → (first (has_instance_id id) (delete s f id w).1.instances ≡ none)
      × (count_where (of_instance id) (delete s f id w).1.messages ≡ 0)
      × (count_where (logged_for id) (delete s f id w).1.events ≡ 0)
unfolding delete purge delete_messages delete_events delete_row
delete_leaves_nothing s f id w done = ground (
  arith,
  done,
  first-delete_where_self (has_instance_id id) w.instances,
  count_where-delete_where_self (of_instance id) w.messages,
  count_where-delete_where_self (logged_for id) w.events,
  count_where-delete_where_self (of_instance id) (delete_where (of_instance id) w.messages),
  count_where-delete_where_self (logged_for id) (delete_where (logged_for id) w.events),
)

found_row :
    (f : Faults) (id : String) (w : World) (i : Instance)
    → get_by_id f id w ≡ ok i
    → first (has_instance_id i.id) w.instances ≡ some i
unfolding get_by_id has_instance_id scan_instance
found_row f id w i h = elim (Option-cases (first (has_instance_id id) w.instances)) [
  | inl missing ↦ absurd (ground (arith, h, missing))
  | inr (r, is_r) ↦
      let is_i : r ≡ i = ground (arith, h, is_r) in
      let same : i.id ≡ id =
        ground (
          arith,
          is_i,
          is_r,
          eq_iff r.id id,
          first_holds (has_instance_id id) w.instances {r = r},
        ) in
      ap (λ (k : String). first (has_instance_id k) w.instances) same ∙ is_r ∙ ap some is_i
]

-- The UPDATE of an instance that was read before stores the instance that it returns.
saved_row :
    (f : Faults) (now : ℕ) (i i' j : Instance) (w : World)
    → first (has_instance_id i.id) w.instances ≡ some i
    → i'.id ≡ i.id
    → i'.created_at ≡ i.created_at
    → (update_instance f now i' w).0 ≡ ok j
    → (first (has_instance_id i.id) (update_instance f now i' w).1.instances ≡ some j)
      × (j ≡ record i' { updated_at = rfc3339 now })
unfolding update_instance update_row has_instance_id
saved_row f now i i' j w found same_id same_time done = ground (
  arith,
  found,
  done,
  same_id,
  same_time,
  first-update_where_self (has_instance_id i.id) (update_row now i') w.instances (λ r h. h),
)

-- An update that ends without an error stores the instance it returns: the one it read with the
-- trimmed name and the fields that the input has. A field that the input leaves out, the owner, the
-- token, the session and the status stay.
pub update_keeps :
    (s : Service) (f : Faults) (now : ℕ) (id : String) (input : UpdateInput) (i j : Instance)
    (w : World)
    → get_by_id f id w ≡ ok i
    → (update s f now id input w).0 ≡ ok j
    → (first (has_instance_id i.id) (update s f now id input w).1.instances ≡ some j)
      × (j ≡ record i {
        name = trim_space input.name;
        webhook_url = or_keep (trimmed input.webhook_url) i.webhook_url;
        webhook_secret = or_keep (trimmed input.webhook_secret) i.webhook_secret;
        calls_enabled = or_keep input.calls_enabled i.calls_enabled;
        updated_at = rfc3339 now;
      })
unfolding update apply_and_save apply_update reload
update_keeps s f now id input i j w found done =
    let row = found_row f id w i found in
    let i' : Instance = record i {
      webhook_url = or_keep (trimmed input.webhook_url) i.webhook_url;
      webhook_secret = or_keep (trimmed input.webhook_secret) i.webhook_secret;
      calls_enabled = or_keep input.calls_enabled i.calls_enabled;
      name = trim_space input.name;
    } in
    ground (arith, found, done, saved_row f now i i' j w row refl refl)

-- A rotation that ends without an error returns the new token, and the instance is as it was but
-- for the hash of that token and the times.
pub rotated_token_holds :
    (hash : String → String) (f : Faults) (plain token : String) (now : ℕ) (id : String)
    (i : Instance) (w : World)
    → get_by_id f id w ≡ ok i
    → (rotate_token hash f plain now id w).0 ≡ ok token
    → (token ≡ plain)
      × (first (has_instance_id i.id) (rotate_token hash f plain now id w).1.instances
          ≡ some (record i {
            token_hash = hash token;
            token_updated_at = some (rfc3339 now);
            updated_at = rfc3339 now;
          }))
unfolding rotate_token rotate
rotated_token_holds hash f plain token now id i w found done =
    let row = found_row f id w i found in
    let i' : Instance = record i {
      token_hash = hash plain;
      token_updated_at = some (rfc3339 now);
    } in
    let j : Instance = record i' { updated_at = rfc3339 now } in
    ground (arith, found, done, saved_row f now i i' j w row refl refl)
