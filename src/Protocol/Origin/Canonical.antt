-- ===== src/Protocol/Origin/Canonical.antt =====
-- A canonical origin stays as it is.
use shimpz_admin.Prelude.{
  ℕ, ◌≡◌, refl, sym, ap, ◌∙◌, subst, ◌⊎◌, inl, inr, true, false, not, ◌&&◌, [], ◌∷◌, ◌++◌, Option,
  none, some, Text, arith, codes, all, ◌==◌, Bool-cases, Option-cases,
}
use shimpz_admin.Protocol.Origin.{
  ahead, split_once, rsplit_once, strip_prefix, is_digit, lower, lowercase, has, http, https,
  is_web, host_parts, located, divided, authority, port_of, scheme_parts, scheme, admitted_byte,
  sound, assembled, canonical_origin,
}

lower_idem : (c : ℕ) → lower (lower c) ≡ lower c
lower_idem c = ground arith

lowercase_idem : (t : Text) → lowercase (lowercase t) ≡ lowercase t
lowercase_idem [] = refl
lowercase_idem (c ∷ t) = rw (lower_idem c, lowercase_idem t) refl

admitted-lower : (c : ℕ) → admitted_byte c ≡ true → admitted_byte (lower c) ≡ true
admitted-lower c h = ground arith

admitted-lowercase :
    (t : Text) → all admitted_byte t ≡ true → all admitted_byte (lowercase t) ≡ true
admitted-lowercase [] h = refl
admitted-lowercase (c ∷ t) h = ground (arith, admitted-lower c, admitted-lowercase t)

has-lowercase : (t : Text) → has 47 (lowercase t) ≡ has 47 t
has-lowercase [] = refl
has-lowercase (c ∷ t) = ground (arith, has-lowercase t)

rsplit_once-lowercase : (t : Text) → rsplit_once 64 t ≡ none → rsplit_once 64 (lowercase t) ≡ none
unfolding rsplit_once
rsplit_once-lowercase [] h = refl
rsplit_once-lowercase (c ∷ t) h = ground (arith, rsplit_once-lowercase t)

abbrev lowered : Option (Text × Text) → Option (Text × Text)
lowered none = none
lowered (some (a, b)) = some (lowercase a, lowercase b)

split_once-lowercase : (t : Text) → split_once 58 (lowercase t) ≡ lowered (split_once 58 t)
unfolding split_once
split_once-lowercase [] = refl
split_once-lowercase (c ∷ t) = ground (arith, split_once-lowercase t)

lower-digits : (t : Text) → all is_digit t ≡ true → lowercase t ≡ t
lower-digits [] h = refl
lower-digits (c ∷ t) h = ground (arith, lower-digits t)

port_digits : (p : Text) → all is_digit p ≡ false → port_of (some p) ≡ none
unfolding port_of
port_digits p h = rw h refl

located-lowered :
    (n : Text) (o : Option (Text × Text))
    → sound (located none (host_parts n o)) ≡ true
    → sound (located none (host_parts (lowercase n) (lowered o))) ≡ true
located-lowered [] none h = cc
located-lowered (c ∷ n) none h = h
located-lowered n (some ([], p)) h = ground (arith, h)
located-lowered n (some (c ∷ t, [])) h = h
located-lowered n (some (c ∷ t, d ∷ p)) h = elim (Bool-cases (all is_digit (d ∷ p))) [
  | inl e ↦ rw (lower-digits (d ∷ p) e) h
  | inr e ↦ absurd (ground (arith, h, port_digits (d ∷ p) e))
]

sound-lowercase : (n : Text) → sound (authority n) ≡ true → sound (authority (lowercase n)) ≡ true
unfolding authority
sound-lowercase n h = elim (Option-cases (rsplit_once 64 n)) [
  | inl e ↦
      rw (rsplit_once-lowercase n e, split_once-lowercase n)
        (located-lowered n (split_once 58 n) (subst (λ o. sound (divided n o) ≡ true) e h))
  | inr ((a, b), e) ↦ absurd (ground (arith, subst (λ o. sound (divided n o) ≡ true) e h))
]

-- The text of an origin: a scheme, `://` and an authority.
abbrev origin_text : Text → Text → Text
origin_text s netloc = s ++ 58 ∷ 47 ∷ 47 ∷ netloc

read_http : (n : Text) → scheme (origin_text http n) ≡ (http, 47 ∷ 47 ∷ n)
unfolding scheme split_once
read_http n = refl

read_https : (n : Text) → scheme (origin_text https n) ≡ (https, 47 ∷ 47 ∷ n)
unfolding scheme split_once
read_https n = refl

web_cases : (s : Text) → is_web s ≡ true → (s ≡ http) ⊎ (s ≡ https)
web_cases s h = ground (arith, h)

web_scheme : (s n : Text) → is_web s ≡ true → scheme (origin_text s n) ≡ (s, 47 ∷ 47 ∷ n)
web_scheme s n h = elim (web_cases s h) [
  | inl e ↦ subst (λ x. scheme (origin_text x n) ≡ (x, 47 ∷ 47 ∷ n)) (sym e) (read_http n)
  | inr e ↦ subst (λ x. scheme (origin_text x n) ≡ (x, 47 ∷ 47 ∷ n)) (sym e) (read_https n)
]

strip_slashes : (n : Text) → strip_prefix (codes "//") (47 ∷ 47 ∷ n) ≡ some n
unfolding strip_prefix
strip_slashes n = refl

-- What an origin is that has a canonical form.
pub record IsOrigin (value origin : Text) : Type 0 where
  pub scheme : Text
  pub netloc : Text
  pub bytes : all admitted_byte netloc ≡ true
  pub flat : has 47 netloc ≡ false
  pub web : is_web scheme ≡ true
  pub parts : sound (authority netloc) ≡ true
  pub text : origin ≡ origin_text scheme (lowercase netloc)

Suffix : Option (Text × Text) → Type 0
Suffix none = Unit
Suffix (some (a, b)) = all admitted_byte b ≡ true

suffix-ahead : (x : ℕ) (o : Option (Text × Text)) → Suffix o → Suffix (ahead x o)
unfolding Suffix
suffix-ahead x none h = tt
suffix-ahead x (some (a, b)) h = h

suffix-split_once : (t : Text) → all admitted_byte t ≡ true → Suffix (split_once 58 t)
unfolding split_once Suffix
suffix-split_once [] h = tt
suffix-split_once (x ∷ t) h = elim (Bool-cases (x == 58)) [
  | inl e ↦ rw e (ground (arith, h))
  | inr e ↦ rw e (suffix-ahead x (split_once 58 t) (suffix-split_once t (ground (arith, h))))
]

strip_suffix :
    (p t n : Text)
    → all admitted_byte t ≡ true
    → strip_prefix p t ≡ some n
    → all admitted_byte n ≡ true
unfolding strip_prefix
strip_suffix [] t n h e = ground (arith, h, e)
strip_suffix (c ∷ p) [] n h e = ground (arith, e)
strip_suffix (c ∷ p) (x ∷ t) n h e = strip_suffix p t n (ground (arith, h)) (ground (arith, e))

assembled-IsOrigin :
    (v s t o : Text) (m : Option Text)
    → all admitted_byte t ≡ true
    → strip_prefix (codes "//") t ≡ m
    → assembled s m ≡ some o
    → IsOrigin v o
assembled-IsOrigin v s t o none b e h = absurd (ground (arith, h))
assembled-IsOrigin v s t o (some n) b e h =
    elim (Bool-cases (not (has 47 n) && is_web s && sound (authority n))) [
      | inl q ↦ record {
        scheme = s;
        netloc = n;
        bytes = strip_suffix (codes "//") t n b e;
        flat = ground (arith, q);
        web = ground (arith, q);
        parts = ground (arith, q);
        text = ground (arith, h, q);
      }
      | inr q ↦ absurd (ground (arith, h, q))
    ]

scheme-bytes :
    (v : Text) (o : Option (Text × Text))
    → all admitted_byte v ≡ true
    → Suffix o
    → all admitted_byte (scheme_parts v o).1 ≡ true
unfolding Suffix
scheme-bytes v none h k = h
scheme-bytes v (some (a, b)) h k = ground (arith, h, k)

pub canonical-IsOrigin : (v o : Text) → canonical_origin v ≡ some o → IsOrigin v o
unfolding canonical_origin scheme
canonical-IsOrigin v o h = elim (Bool-cases (all admitted_byte v)) [
  | inl e ↦
      let b = scheme-bytes v (split_once 58 v) e (suffix-split_once v e) in
      assembled-IsOrigin v (scheme v).0 (scheme v).1 o _ b refl (ground (arith, h, e))
  | inr e ↦ absurd (ground (arith, h, e))
]

web_bytes :
    (s n : Text)
    → is_web s ≡ true
    → all admitted_byte n ≡ true
    → all admitted_byte (origin_text s n) ≡ true
web_bytes s n w h = elim (web_cases s w) [ inl e ↦ rw e h | inr e ↦ rw e h ]

assembled-web :
    (s n : Text)
    → has 47 n ≡ false
    → is_web s ≡ true
    → sound (authority n) ≡ true
    → assembled s (some n) ≡ some (origin_text s (lowercase n))
assembled-web s n f w p = rw (f, w, p) refl

canonical-text :
    (s n : Text)
    → all admitted_byte n ≡ true
    → has 47 n ≡ false
    → is_web s ≡ true
    → sound (authority n) ≡ true
    → canonical_origin (origin_text s n) ≡ some (origin_text s (lowercase n))
unfolding canonical_origin
canonical-text s n b f w p =
    rw (web_bytes s n w b, web_scheme s n w, strip_slashes n) (assembled-web s n f w p)

-- The canonical form of an Origin is its own canonical form.
pub canonical_origin_idem : (v o : Text) → canonical_origin v ≡ some o → canonical_origin o ≡ some o
canonical_origin_idem v o h =
    let i = canonical-IsOrigin v o h in
    let n = lowercase i.netloc in
    let again =
      canonical-text i.scheme n (admitted-lowercase i.netloc i.bytes)
        (has-lowercase i.netloc ∙ i.flat) i.web (sound-lowercase i.netloc i.parts) in
    subst (λ x. canonical_origin x ≡ some x) (sym i.text)
      (again ∙ ap (λ m. some (origin_text i.scheme m)) (lowercase_idem i.netloc))
