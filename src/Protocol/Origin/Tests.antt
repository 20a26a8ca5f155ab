-- ===== src/Protocol/Origin/Tests.antt =====
-- Origins at work.
use shimpz_admin.Prelude.{◌≡◌, refl, none, some, Text, codes, Text-discrete, ℕ_discrete}
use shimpz_admin.Protocol.Origin.{
  split_once, rsplit_once, strip_prefix, authority, port_of, scheme, canonical_origin,
}
use shimpz_admin.Protocol.Origin.Canonical.{canonical_origin_idem}

origins : Unit {0}
unfolding Text-discrete ℕ_discrete split_once rsplit_once strip_prefix authority port_of scheme
    canonical_origin
origins = tt

abbrev typed : Text
typed = codes "HTTPS://Admin.Example.org:08443"

abbrev canonical : Text
canonical = codes "https://admin.example.org:08443"

reads : canonical_origin typed ≡ some canonical
unfolding origins
reads = refl

canonical_origin_idem_example : canonical_origin canonical ≡ some canonical
canonical_origin_idem_example = canonical_origin_idem typed canonical reads

-- A user, a path, a port above 65535 and another scheme are refused.
refuses_user : canonical_origin (codes "https://a@b.org") ≡ none
unfolding origins
refuses_user = refl

refuses_path : canonical_origin (codes "https://b.org/") ≡ none
unfolding origins
refuses_path = refl

refuses_port : canonical_origin (codes "https://b.org:65536") ≡ none
unfolding origins
refuses_port = refl

refuses_scheme : canonical_origin (codes "ftp://b.org") ≡ none
unfolding origins
refuses_scheme = refl
