-- ===== src/Enrollments/Cycle.antt =====
-- The life of an enrollment, seen from outside: it is open until it is used or revoked, once.
use multi_tenant_cloud_obser.Base.{
  ℕ, ◌≡◌, refl, sym, subst, ◌∙◌, Bool, true, false, ◌&&◌, Option, none, some, List, [], ◌∷◌, ◌++◌,
  arith, any, Text, ◌==◌, if◌then◌else◌, is_none, is_some, inl, inr, Bool-cases, ap, text_eq,
}
use multi_tenant_cloud_obser.Base.Tables.{update, find}
use multi_tenant_cloud_obser.Store.{Enrollment}
use multi_tenant_cloud_obser.Enrollments.{
  by_token, is_unused, is_usable, used_too_late, use_enrollment, end_enrollment,
}

-- The abstract state, with the time of the last change.
pub data Phase : Type 0 where
  unused : Phase
  used_at revoked_at : ℕ → Phase

abbrev pub phase_of : Option ℕ → Option ℕ → Phase
phase_of (some at) r = used_at at
phase_of none (some at) = revoked_at at
phase_of none none = unused

abbrev pub phase : Enrollment → Phase
phase e = phase_of e.used_at e.revoked_at

-- The abstract machine.
abbrev pub Moves : Phase → Phase → Type 0
Moves unused q = Unit
Moves (used_at t) q = q ≡ used_at t
Moves (revoked_at t) q = q ≡ revoked_at t

Moves-refl : (p : Phase) → Moves p p
Moves-refl unused = tt
Moves-refl (used_at t) = refl
Moves-refl (revoked_at t) = refl

Moves-trans : (p q r : Phase) → Moves p q → Moves q r → Moves p r
Moves-trans unused q r h k = tt
Moves-trans (used_at t) q r h k = subst (λ x. Moves x r → r ≡ used_at t) (sym h) (λ i. i) k
Moves-trans (revoked_at t) q r h k = subst (λ x. Moves x r → r ≡ revoked_at t) (sym h) (λ i. i) k

-- A row keeps what identifies it, and its phase moves as the machine does.
pub record Evolves (e f : Enrollment) : Type 0 where
  pub same_id : f.id ≡ e.id
  pub same_token : f.token_hash ≡ e.token_hash
  pub same_agent : f.agent_id ≡ e.agent_id
  pub kept_tenant : f.tenant_id ≡ e.tenant_id
  pub moves : Moves (phase e) (phase f)

Evolves-refl : (e : Enrollment) → Evolves e e
Evolves-refl e = record {
  same_id = refl;
  same_token = refl;
  same_agent = refl;
  kept_tenant = refl;
  moves = Moves-refl (phase e);
}

Evolves-trans : (e f g : Enrollment) → Evolves e f → Evolves f g → Evolves e g
Evolves-trans e f g h k = record {
  same_id = k.same_id ∙ h.same_id;
  same_token = k.same_token ∙ h.same_token;
  same_agent = k.same_agent ∙ h.same_agent;
  kept_tenant = k.kept_tenant ∙ h.kept_tenant;
  moves = Moves-trans (phase e) (phase f) (phase g) h.moves k.moves;
}

-- Every row of the table is still there, evolved, and rows are added behind.
unfoldable pub Grows : List Enrollment → List Enrollment → Type 0
Grows [] fs = Unit
Grows (e ∷ es) [] = ⊥
Grows (e ∷ es) (f ∷ fs) = Evolves e f × Grows es fs

pub Grows-refl : (es : List Enrollment) → Grows es es
unfolding Grows
Grows-refl [] = tt
Grows-refl (e ∷ es) = (Evolves-refl e, Grows-refl es)

pub Grows-trans : (es fs gs : List Enrollment) → Grows es fs → Grows fs gs → Grows es gs
unfolding Grows
Grows-trans [] fs gs h k = tt
Grows-trans (e ∷ es) [] gs h k = elim h [ ]
Grows-trans (e ∷ es) (f ∷ fs) [] h k = elim k [ ]
Grows-trans (e ∷ es) (f ∷ fs) (g ∷ gs) h k =
    (Evolves-trans e f g h.0 k.0, Grows-trans es fs gs h.1 k.1)

pub Grows-append : (es fs : List Enrollment) → Grows es (es ++ fs)
unfolding Grows
Grows-append [] fs = tt
Grows-append (e ∷ es) fs = (Evolves-refl e, Grows-append es fs)

pub Grows-update :
    (p : Enrollment → Bool) (f : Enrollment → Enrollment)
    → ((e : Enrollment) → Evolves e (if p e then f e else e))
    → (es : List Enrollment) → Grows es (update p f es)
unfolding Grows update
Grows-update p f h [] = tt
Grows-update p f h (e ∷ es) = (h e, Grows-update p f h es)

Moves-unused : (u r : Option ℕ) (q : Phase) → is_none u && is_none r ≡ true → Moves (phase_of u r) q
Moves-unused none none q h = tt
Moves-unused none (some t) q h = absurd cc
Moves-unused (some t) r q h = absurd cc

Evolves-end :
    (user now : ℕ) (e : Enrollment) → is_unused e ≡ true → Evolves e (end_enrollment user now e)
Evolves-end user now e h = record {
  same_id = refl;
  same_token = refl;
  same_agent = refl;
  kept_tenant = refl;
  moves = Moves-unused e.used_at e.revoked_at _ h;
}

Evolves-use : (now : ℕ) (e : Enrollment) → is_unused e ≡ true → Evolves e (use_enrollment now e)
Evolves-use now e h = record {
  same_id = refl;
  same_token = refl;
  same_agent = refl;
  kept_tenant = refl;
  moves = Moves-unused e.used_at e.revoked_at _ h;
}

Evolves-if :
    (b : Bool) (e f : Enrollment) → (b ≡ true → Evolves e f) → Evolves e (if b then f else e)
Evolves-if true e f h = h refl
Evolves-if false e f h = Evolves-refl e

pub Grows-end :
    (p : Enrollment → Bool) (user now : ℕ) (es : List Enrollment)
    → Grows es (update (λ e. p e && is_unused e) (end_enrollment user now) es)
Grows-end p user now =
    Grows-update (λ e. p e && is_unused e) (end_enrollment user now)
      (λ e.
        Evolves-if (p e && is_unused e) e (end_enrollment user now e)
          (λ h. Evolves-end user now e (ground arith)))

pub Grows-mark_used :
    (id now : ℕ) (es : List Enrollment)
    → any (used_too_late id) es ≡ false
    → Grows es (update (is_usable id) (use_enrollment now) es)
unfolding Grows update any
Grows-mark_used id now [] h = tt
Grows-mark_used id now (e ∷ es) h = (
  Evolves-if (is_usable id e) e (use_enrollment now e)
      (λ k. Evolves-use now e (usable e.used_at e.revoked_at k (ground arith))),
  Grows-mark_used id now es (ground arith),
)
  where
    usable :
        (u r : Option ℕ)
        → (e.id == id) && is_none u ≡ true
        → ((e.id == id) && is_none u) && is_some r ≡ false
        → is_none u && is_none r ≡ true
    usable none none k l = refl
    usable none (some t) k l = ground arith
    usable (some t) r k l = ground arith

pub if-eq-some :
    {A : Type 0} (b : Bool) (x y : A) (o : Option A)
    → b ≡ true
    → (if b then some x else o) ≡ some y
    → x ≡ y
if-eq-some true x y o h k = cc
if-eq-some false x y o h k = absurd cc

-- A token leads to the same row, evolved.
pub find-Grows :
    (token_hash : Text) (es fs : List Enrollment) (e : Enrollment)
    → Grows es fs
    → find (by_token token_hash) es ≡ some e
    → (f : Enrollment) × (find (by_token token_hash) fs ≡ some f) × Evolves e f
unfolding Grows find
find-Grows t [] fs e g h = absurd cc
find-Grows t (x ∷ es) [] e g h = elim g [ ]
find-Grows t (x ∷ es) (f ∷ fs) e g h = elim (Bool-cases (text_eq x.token_hash t)) [
  | inl eq ↦ (
    f,
    ground (arith, ap (λ h. text_eq h t) g.0.same_token),
    subst (λ y. Evolves y f) (if-eq-some (text_eq x.token_hash t) x e (find (by_token t) es) eq h)
        g.0,
  )
  | inr ne ↦
      let (y, found, ev) = find-Grows t es fs e g.1 (ground arith) in
      (y, ground (arith, ap (λ h. text_eq h t) g.0.same_token), ev)
]
