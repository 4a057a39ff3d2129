-- ===== src/Gateway/Normal.antt =====
-- proxy/safe-path.ts: what the URL parser leaves of a path that is safe.
use multi_tenant_cloud_obser.Base.{
  ℕ, ◌≡◌, ◌∙◌, refl, ap, subst, inl, inr, Bool, true, false, not, ◌&&◌, ◌||◌, List, [], ◌∷◌, map,
  arith, ◌==◌, if_cases, all, All, Text, text_eq, text_eq_sound, includes, has_unit, split, before,
  Bool-cases,
}
use mathlib.Core.List.{reverse, reverse_aux, reverse_aux-reverse_aux-nil}
use multi_tenant_cloud_obser.Gateway.{returns, forbidden, require, required_lem}
use multi_tenant_cloud_obser.Gateway.Percent.{decode_uri_component, pieces, decode_pieces}
use multi_tenant_cloud_obser.Gateway.SafePath.{
  is_safe_segment, assert_safe_relative_path, single_dots, double_dots, UrlParser, encode, push,
  push_last, normalise, to_slash, backslash, join, pathname,
}

All-includes {ℓ} :
    (P : Text → Type ℓ) (xs : List Text) (t : Text) → All P xs → includes xs t ≡ true → P t
unfolding includes
All-includes P [] t a h = cc
All-includes P (x ∷ xs) t a h = elim (Bool-cases (text_eq x t)) [
  | inl e ↦ subst P (text_eq_sound x t e) a.0
  | inr e ↦ All-includes P xs t a.1 (skip (text_eq x t) (includes xs t) e h)
]
  where
    skip : (b r : Bool) → b ≡ false → (b || r) ≡ true → r ≡ true
    skip false r e h' = h'
    skip true r e h' = cc

-- The spellings of the dot segments are all decoded to what the check refuses.
dots_unsafe :
    All (λ s. is_safe_segment s ≡ false) double_dots
    × All (λ s. is_safe_segment s ≡ false) single_dots
unfolding is_safe_segment decode_uri_component pieces decode_pieces text_eq has_unit
dots_unsafe = (
  (refl, (refl, (refl, (refl, (refl, (refl, (refl, (refl, (refl, tt))))))))),
  (refl, (refl, (refl, tt))),
)

safe_not_dots :
    (dots : List Text) (s : Text)
    → All (λ d. is_safe_segment d ≡ false) dots
    → is_safe_segment s ≡ true
    → includes dots s ≡ false
safe_not_dots dots s a h = elim (Bool-cases (includes dots s)) [
  | inl e ↦ cc (All-includes (λ d. is_safe_segment d ≡ false) dots s a e, h)
  | inr e ↦ e
]

all-head : (b r : Bool) → (b && r) ≡ true → (b ≡ true) × (r ≡ true)
all-head true r h = (refl, h)
all-head false r h = cc

push-safe :
    (p : UrlParser) (path : List Text) (s : Text)
    → is_safe_segment s ≡ true
    → (push p path s ≡ encode p s ∷ path) × (push_last p path s ≡ encode p s ∷ path)
push-safe p path s h =
    let double = safe_not_dots double_dots s dots_unsafe.0 h in
    let single = safe_not_dots single_dots s dots_unsafe.1 h in rw (double, single) (refl, refl)

normalise-safe :
    (p : UrlParser) (path segments : List Text)
    → all is_safe_segment segments ≡ true
    → normalise p path segments ≡ reverse_aux (map (encode p) segments) path
unfolding normalise all
normalise-safe p path [] h = refl
normalise-safe p path (s ∷ []) h = (push-safe p path s (all-head (is_safe_segment s) true h).0).1
normalise-safe p path (s ∷ s' ∷ segments) h =
    let (safe, rest) = all-head (is_safe_segment s) (all is_safe_segment (s' ∷ segments)) h in
    ap (λ q. normalise p q (s' ∷ segments)) (push-safe p path s safe).0
    ∙ normalise-safe p (encode p s ∷ path) (s' ∷ segments) rest

before-absent : (d : ℕ) (t : Text) → has_unit d t ≡ false → before d t ≡ t
unfolding has_unit before
before-absent d [] h = refl
before-absent d (c ∷ t) h =
    if_cases (λ r. r ≡ c ∷ t) (c == d) [] (c ∷ before d t) (λ e. cc (e, h))
      (λ e. ap (λ u. c ∷ u) (before-absent d t (skip (c == d) (has_unit d t) h)))
  where
    skip : (b r : Bool) → (b || r) ≡ false → r ≡ false
    skip false r h' = h'
    skip true r h' = cc

map-to_slash : (t : Text) → has_unit backslash t ≡ false → map to_slash t ≡ t
unfolding has_unit
map-to_slash [] h = refl
map-to_slash (c ∷ t) h = ground (arith, map-to_slash t)

is_required : (b : Bool) → require b forbidden ≡ returns tt → b ≡ true
is_required true h = refl
is_required false h = cc

negated : (b : Bool) → not b ≡ true → b ≡ false
negated true h = cc
negated false h = refl

-- A target that passes the check and has no fragment keeps all its segments: the URL parser resolves
-- no dot segment of it in any spelling and takes no backslash for a slash, so that it only encodes.
pub pathname-safe :
    (p : UrlParser) (t : Text)
    → assert_safe_relative_path (b'/' ∷ t) ≡ returns tt
    → has_unit b'#' (b'/' ∷ t) ≡ false
    → pathname p (b'/' ∷ t) ≡ join (map (encode p) (split b'/' (before b'?' t)))
unfolding pathname assert_safe_relative_path before has_unit split all
pathname-safe p t h no_fragment =
    let path = before b'?' t in
    let (plain, safe) = required_lem (not (has_unit backslash (b'/' ∷ path))) forbidden _ tt h in
    let segments = split b'/' path in
    let safe_segments =
      (all-head (is_safe_segment []) (all is_safe_segment segments) (is_required _ safe)).1 in
    ap (λ u. join (reverse (normalise p [] (split b'/' (map to_slash (before b'?' u))))))
      (before-absent b'#' t no_fragment)
    ∙ (ap (λ u. join (reverse (normalise p [] (split b'/' u))))
          (map-to_slash path (negated (has_unit backslash path) plain))
        ∙ (ap (λ q. join (reverse q)) (normalise-safe p [] segments safe_segments)
            ∙ ap join (reverse_aux-reverse_aux-nil (map (encode p) segments) [])))
