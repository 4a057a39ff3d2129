-- ===== src/SupportAccess/Sound.antt =====
-- Grants over time: a grant whose end is recorded as announced has ended, and a revoked one is
-- recorded.
use multi_tenant_cloud_obser.Base.{
  ℕ, ◌≡◌, refl, Bool, true, Option, none, some, List, All, All-append, ◌||◌, is_none, is_some,
  if_cases, Text,
}
use multi_tenant_cloud_obser.Base.Tables.{update, All-update}
use multi_tenant_cloud_obser.Guards.{Actor}
use multi_tenant_cloud_obser.Store.{Database, Grant, Tenant, System, rolled_back}
use multi_tenant_cloud_obser.Store.Keeps.{
  Keeps, Keeps-bind, Keeps-then, Keeps-give, Keeps-throw, Keeps-query, Keeps-execute, Keeps-attempt,
  Keeps-found_or, Keeps-throw_if, Keeps-if, Keeps-transaction, Keeps-enqueue_all,
  Keeps-enqueue_event, OnSuccess-if,
}
use multi_tenant_cloud_obser.SupportAccess.{
  insert_grant, revoke_in_effect, end_open_for_tenant, claim_expired, if_running, or_value,
}
use multi_tenant_cloud_obser.SupportAccess.Service.{
  GrantDto, grant, revoke, sweep_expired, of_tenant, by_valid_id, announce,
}

-- The end of a revoked grant is recorded as announced.
unfoldable pub IsSound : Grant → Type 0
IsSound g = is_none g.revoked_at || is_some g.expiry_synced_at ≡ true

abbrev pub Sound : Database → Type 0
Sound db = All IsSound db.grants

some_synced : (r : Option ℕ) (now : ℕ) → is_none r || is_some (some now) ≡ true
some_synced none now = refl
some_synced (some t) now = refl

Sound-update :
    (p : Grant → Bool) (f : Grant → Grant) (gs : List Grant)
    → ((g : Grant) → IsSound (f g))
    → All IsSound gs
    → All IsSound (update p f gs)
Sound-update p f gs h =
    All-update IsSound IsSound p f gs (λ g k. if_cases IsSound (p g) (f g) g (λ e. h g) (λ e. k))

module _ {W : Type 0} where
  Sound-grant :
      (max_minutes : ℕ) (actor : Actor) (tenant : Tenant) (dto : GrantDto)
      → Keeps {W = W} Sound (grant max_minutes actor tenant dto)
  unfolding grant insert_grant IsSound rolled_back
  Sound-grant max_minutes actor tenant dto = Keeps-then (Keeps-throw_if _ _) (
      Keeps-then (Keeps-throw_if _ _) (
        Keeps-bind
          (Keeps-transaction (λ before after h. h)
            (Keeps-bind
              (Keeps-attempt _ _ (λ now db h.
                OnSuccess-if Sound _ _ _ (λ k. All-append IsSound db.grants _ h (refl, tt))))
              (λ id. Keeps-then (Keeps-enqueue_event _ _ _ (λ db o h. h)) (Keeps-give _))))
          (λ id.
            Keeps-bind (Keeps-bind (Keeps-query _) (Keeps-found_or _))
              (λ g. Keeps-execute _ (λ now db h. h)))))

  Sound-revoke :
      (actor : Actor) (tenant : Tenant) (id : Option ℕ)
      → Keeps {W = W} Sound (revoke actor tenant id)
  unfolding revoke revoke_in_effect rolled_back IsSound
  Sound-revoke actor tenant id = Keeps-bind (looked_up id) (λ found.
      Keeps-bind (checked found) (λ existing.
        Keeps-then
          (Keeps-transaction (λ before after h. h)
            (Keeps-bind (Keeps-execute _ (λ now db. Sound-update _ _ db.grants (λ g. refl)))
              announced))
          (Keeps-bind (Keeps-bind (Keeps-query _) (Keeps-found_or _))
            (λ g. Keeps-execute _ (λ now db h. h)))))
    where
      looked_up : (o : Option ℕ) → Keeps {W = W} Sound (by_valid_id o)
      looked_up none = Keeps-give _
      looked_up (some id) = Keeps-query _

      checked : (o : Option Grant) → Keeps {W = W} Sound (of_tenant tenant o)
      checked none = Keeps-throw _
      checked (some g) = Keeps-if _ (Keeps-give _) (Keeps-throw _)

      announced : (o : Option ℕ) → Keeps {W = W} Sound (announce o)
      announced none = Keeps-give tt
      announced (some user_id) = Keeps-enqueue_event _ _ _ (λ db o h. h)

  Sound-sweep_expired :
      (held : ℕ → Bool) (sweeping : Bool) → Keeps {W = W} Sound (sweep_expired held sweeping)
  unfolding sweep_expired claim_expired rolled_back IsSound
  Sound-sweep_expired held sweeping = Keeps-if sweeping (Keeps-give _) (
      Keeps-bind
        (Keeps-transaction (λ before after h. h)
          (Keeps-bind
            (Keeps-execute _
              (λ now db. Sound-update _ _ db.grants (λ g. some_synced g.revoked_at now)))
            (λ claimed. Keeps-then (Keeps-enqueue_all _ _ _ (λ db o h. h)) (Keeps-give _))))
        (λ expired. Keeps-give _))

  -- No operation on grants leaves a revoked grant whose end is not recorded as announced.
  pub grants-Sound :
      (max_minutes : ℕ) (actor : Actor) (tenant : Tenant) (dto : GrantDto) (id : Option ℕ)
      (held : ℕ → Bool) (sweeping : Bool) (tenant_id now : ℕ) (by : Text) (s : System W)
      → Sound s.db
      → Sound (grant max_minutes actor tenant dto s).1.db
        × Sound (revoke actor tenant id s).1.db
        × Sound (sweep_expired held sweeping s).1.db
        × Sound (end_open_for_tenant tenant_id by now s.db).1
  unfolding end_open_for_tenant IsSound
  grants-Sound max_minutes actor tenant dto id held sweeping tenant_id now by s h = (
    (Sound-grant max_minutes actor tenant dto).kept s h,
    (Sound-revoke actor tenant id).kept s h,
    (Sound-sweep_expired held sweeping).kept s h,
    Sound-update _ _ s.db.grants
        (λ g. some_synced (or_value g.revoked_at (if_running now g now)) now) h,
  )
