-- ===== src/Signin/Totp.antt =====
-- backend/src/signin/totp/mod.rs: the Supervisor's one-time-code factor. A stored JSON object that has
-- exactly the nine members of `FIELDS` is the record of their values. HMAC-SHA-1 and the base32
-- alphabet come from libraries: they are the parameters `hmac` and `base32`; a digest has 20 bytes.
pub mod Lock
pub mod Replay
pub mod Stored
pub mod Refusal
pub mod Statuses
mod Tests
use shimpz_admin.Prelude.{
  ℕ, zero, suc, ◌+◌, ◌-◌, ◌*◌, ◌/◌, ◌%◌, ◌^◌, min, ite, Bool, true, false, not, ◌&&◌, ◌||◌, List,
  [], ◌∷◌, Option, none, some, Text, Text-discrete, codes, length, get_elem?, all, ltb, leb, ◌==◌,
  if◌then◌else◌,
}
use shimpz_admin.Prelude.Int.{ℤ, pos, negsuc, ◌+ℤ◌, ltb_ℤ, wrap}

abbrev pub period_seconds : ℕ
period_seconds = 30

abbrev pub secret_bytes : ℕ
secret_bytes = 20

abbrev pub enrollment_ttl_seconds : ℕ
enrollment_ttl_seconds = 15 * 60

abbrev pub failure_limit : ℕ
failure_limit = 5

abbrev pub first_lock_seconds : ℕ
first_lock_seconds = 5 * 60

abbrev pub max_lock_seconds : ℕ
max_lock_seconds = 4 * 3600

abbrev pub max_failures : ℕ
max_failures = 1000000

-- A member's value, as far as this code tells values apart.
pub data Value : Type 0 where
  null : Value
  int : ℤ → Value
  text : Text → Value
  other : Value

pub record Factor : Type 0 where
  pub status : Value
  pub secret : Value
  pub created_at : Value
  pub resumed_at : Value
  pub expires_at : Value
  pub failures : Value
  pub locked_until : Value
  pub last_accepted_step : Value
  pub activated_at : Value

pub data Verification : Type 0 where
  accepted invalid locked expired changed : Verification

abbrev pub as_int : Value → Option ℤ
as_int (int n) = some n
as_int _ = none

abbrev pub as_str : Value → Option Text
as_str (text t) = some t
as_str _ = none

abbrev pub is_null : Value → Bool
is_null null = true
is_null _ = false

abbrev pub nullable_int : Value → Bool
nullable_int null = true
nullable_int (int n) = true
nullable_int _ = false

-- The statuses that the contract knows.
pub data Status : Type 0 where
  pending active : Status

abbrev pub pending_text : Text
pending_text = codes "pending"

abbrev pub active_text : Text
active_text = codes "active"

abbrev pub status_of_text : Text → Option Status
status_of_text t =
    ite (Text-discrete t pending_text) (some pending)
      (ite (Text-discrete t active_text) (some active) none)

unfoldable pub status_of : Value → Option Status
status_of (text t) = status_of_text t
status_of _ = none

abbrev is_base32 : ℕ → Bool
is_base32 c = leb 0x41 c && leb c 0x5a || leb 0x32 c && leb c 0x37

-- `now.div_euclid(PERIOD_SECONDS)`.
abbrev pub step_at : ℤ → ℤ
step_at (pos n) = pos (n / period_seconds)
step_at (negsuc n) = negsuc (n / period_seconds)

abbrev digit : ℕ → ℕ
digit n = 0x30 + n % 10

-- `format!("{:06}", …)` of a number below 10 ^ 6.
abbrev six_digits : ℕ → Text
six_digits n =
    digit (n / 100000)
    ∷ digit (n / 10000)
    ∷ digit (n / 1000)
    ∷ digit (n / 100)
    ∷ digit (n / 10)
    ∷ digit n
    ∷ []

-- The two's complement of a 64-bit integer, and its bytes, the first one first.
abbrev bits : ℤ → ℕ
bits (pos n) = n
bits (negsuc n) = 2 ^ 64 - suc n

abbrev to_be_bytes : ℕ → Text
to_be_bytes n =
    n / 2 ^ 56 % 256
    ∷ n / 2 ^ 48 % 256
    ∷ n / 2 ^ 40 % 256
    ∷ n / 2 ^ 32 % 256
    ∷ n / 2 ^ 24 % 256
    ∷ n / 2 ^ 16 % 256
    ∷ n / 2 ^ 8 % 256
    ∷ n % 256
    ∷ []

abbrev or_zero : Option ℕ → ℕ
or_zero none = 0
or_zero (some b) = b

-- The byte at an index of a digest of 20 bytes.
abbrev byte : Text → ℕ → ℕ
byte digest i = or_zero (get_elem? digest i)

abbrev truncated : Text → ℕ → ℕ
truncated digest offset =
    (byte digest offset * 2 ^ 24
      + byte digest (offset + 1) * 2 ^ 16
      + byte digest (offset + 2) * 2 ^ 8
      + byte digest (offset + 3))
    % 2 ^ 31

abbrev pub is_digit : ℕ → Bool
is_digit c = leb 0x30 c && leb c 0x39

abbrev pub is_code : Text → Bool
is_code code = length code == 6 && all is_digit code

-- The shift of `LOCK_SECONDS`.
abbrev pub doubled : ℕ → ℕ
doubled over = min (first_lock_seconds * 2 ^ (min over 16)) max_lock_seconds

unfoldable pub lock_seconds : ℤ → ℕ
lock_seconds (negsuc n) = 0
lock_seconds (pos n) = if ltb n failure_limit then 0 else doubled (n - failure_limit)

abbrev pub one_more : Option ℤ → ℤ
one_more none = pos 1
one_more (some n) =
    let sum = wrap (n +ℤ pos 1) in if ltb_ℤ (pos max_failures) sum then pos max_failures else sum

unfoldable pub record_failure : ℤ → Factor → Factor × Verification
record_failure now f =
    let failures = one_more (as_int f.failures) in
    if ltb 0 (lock_seconds failures)
    then (
      record f {
        failures = int failures;
        locked_until = int (wrap (now +ℤ pos (lock_seconds failures)));
      },
      locked,
    )
    else (record f { failures = int failures }, invalid)

abbrev later_than : ℤ → Option ℤ → Bool
later_than now none = false
later_than now (some until) = ltb_ℤ now until

-- `locked`.
unfoldable pub is_locked : Factor → ℤ → Bool
is_locked f now = later_than now (as_int f.locked_until)

-- `expires_at` of a pending factor, or 0.
abbrev pub int_or_zero : Option ℤ → ℤ
int_or_zero none = pos 0
int_or_zero (some n) = n

abbrev pub is_pending : Option Status → Bool
is_pending (some pending) = true
is_pending _ = false

abbrev pub has_expired : Factor → ℤ → Bool
has_expired f now = is_pending (status_of f.status) && ltb_ℤ (int_or_zero (as_int f.expires_at)) now

-- A step that is later than the last accepted one.
abbrev pub fresh : Option ℤ → Option ℤ → Option ℤ
fresh last none = none
fresh none (some step) = some step
fresh (some last) (some step) = if ltb_ℤ last step then some step else none

abbrev pub activate : Option Status → ℤ → Factor → Factor
activate (some pending) now f = record f {
  status = text active_text;
  expires_at = null;
  activated_at = int now;
}
activate _ now f = f

abbrev pub accept : ℤ → ℤ → Factor → Factor
accept now step f =
    activate (status_of f.status) now
      (record f { last_accepted_step = int step; failures = int (pos 0); locked_until = null })

abbrev pub decide : ℤ → Factor → Option ℤ → Factor × Verification
decide now f none = record_failure now f
decide now f (some step) = (accept now step f, accepted)

-- The bounds of `validated` on the three integers that it reads.
abbrev in_order : Option ℤ → Option ℤ → Option ℤ → Bool
in_order (some created) (some resumed) (some failures) =
    not (ltb_ℤ created (pos period_seconds))
    && not (ltb_ℤ resumed created)
    && not (ltb_ℤ failures (pos 0))
    && not (ltb_ℤ (pos max_failures) failures)
in_order _ _ _ = false

abbrev equal_ℤ : ℤ → ℤ → Bool
equal_ℤ a b = not (ltb_ℤ a b) && not (ltb_ℤ b a)

abbrev is_window : Option ℤ → Option ℤ → Bool
is_window (some expires) (some resumed) =
    equal_ℤ expires (wrap (resumed +ℤ pos enrollment_ttl_seconds))
is_window _ _ = false

abbrev not_before : Option ℤ → Option ℤ → Bool
not_before (some at) (some created) = not (ltb_ℤ at created)
not_before _ _ = false

-- The part of `validated` that depends on the status.
abbrev pub status_fits : Option Status → Factor → Bool
status_fits none f = false
status_fits (some pending) f =
    is_window (as_int f.expires_at) (as_int f.resumed_at)
    && is_null f.last_accepted_step
    && is_null f.activated_at
status_fits (some active) f =
    is_null f.expires_at && not_before (as_int f.activated_at) (as_int f.created_at)

abbrev holds : Option Text → Bool
holds none = false
holds (some secret) = true

module _ (base32 : Text → Option Text) where
  abbrev sized : Option Text → Option Text
  sized none = none
  sized (some decoded) = if length decoded == secret_bytes then some decoded else none

  abbrev decode_text : Option Text → Option Text
  decode_text none = none
  decode_text (some secret) =
      if length secret == 32 && all is_base32 secret then sized (base32 secret) else none

  unfoldable pub decode_secret : Value → Option Text
  decode_secret secret = decode_text (as_str secret)

  -- `validated` of the nine members.
  unfoldable pub validated : Factor → Bool
  validated f =
      holds (decode_secret f.secret)
      && in_order (as_int f.created_at) (as_int f.resumed_at) (as_int f.failures)
      && nullable_int f.locked_until
      && nullable_int f.last_accepted_step
      && status_fits (status_of f.status) f

  -- `enrollment`'s secret and `resume`, which opens a fresh window.
  abbrev secret_text : Option Text → Text
  secret_text none = []
  secret_text (some secret) = secret

  unfoldable pub enrollment : Factor → Option Text
  enrollment f =
      if validated f && is_pending (status_of f.status)
      then some (secret_text (as_str f.secret))
      else none

  unfoldable pub resume : ℤ → Factor → Factor × Option Text
  resume now f =
      if validated f && is_pending (status_of f.status)
      then (let f' = record f {
        resumed_at = int now;
        expires_at = int (wrap (now +ℤ pos enrollment_ttl_seconds));
      } in
          (f', enrollment f'))
      else (f, none)

module _ (hmac : Text → Text → Text) where
  unfoldable pub hotp : Text → ℤ → Text
  hotp secret step =
      let digest = hmac secret (to_be_bytes (bits step)) in
      six_digits (truncated digest (byte digest (length digest - 1) % 16) % 1000000)

  -- The loop of `matched_step`: the last step whose code is the presented one.
  abbrev pub last_match : Text → Text → List ℤ → Option ℤ → Option ℤ
  last_match secret code [] matched = matched
  last_match secret code (step ∷ steps) matched =
      last_match secret code steps (ite (Text-discrete code (hotp secret step)) (some step) matched)

  abbrev match_text : Text → ℤ → Option Text → Option ℤ
  match_text secret current none = none
  match_text secret current (some code) =
      if is_code code
      then last_match secret code ((current +ℤ negsuc 0) ∷ current ∷ (current +ℤ pos 1) ∷ []) none
      else none

  unfoldable pub matched_step : Text → Value → ℤ → Option ℤ
  matched_step secret code now = match_text secret (step_at now) (as_str code)

module _ (hmac : Text → Text → Text) (base32 : Text → Option Text) where
  abbrev pub try_code : ℤ → Value → Factor → Option Text → Option (Factor × Verification)
  try_code now code f none = none
  try_code now code f (some secret) =
      some (decide now f (fresh (as_int f.last_accepted_step) (matched_step hmac secret code now)))

  -- No result is `TotpStateError`.
  unfoldable pub verify : Value → ℤ → Factor → Option (Factor × Verification)
  verify code now f =
      if validated base32 f
      then (if has_expired f now
          then some (f, expired)
          else if is_locked f now
          then some (f, locked)
          else try_code now code f (decode_secret base32 f.secret))
      else none

-- `new_record`, with the text of the drawn secret.
unfoldable pub new_record : Text → ℤ → Factor
new_record secret now = record {
  status = text pending_text;
  secret = text secret;
  created_at = int now;
  resumed_at = int now;
  expires_at = int (wrap (now +ℤ pos enrollment_ttl_seconds));
  failures = int (pos 0);
  locked_until = null;
  last_accepted_step = null;
  activated_at = null;
}
