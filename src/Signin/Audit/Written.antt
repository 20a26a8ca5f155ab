-- ===== src/Signin/Audit/Written.antt =====
-- What a recorded event leaves on the disk.
use shimpz_admin.Prelude.{
  ◌+◌, ◌≤◌, ◌<◌, ◌≡◌, ◌⊎◌, inl, inr, refl, sym, ap, ◌∙◌, subst, Bool, true, false, ◌++◌,
  append_assoc, append-nil, Option, none, some, arith, Text, length, length-append, if◌then◌else◌,
  Bool-cases, Option-cases,
}
use shimpz_admin.Signin.Audit.{
  max_bytes, File, Disk, Effects, rotate, needs_rotation, or_empty, with_line, write,
  after_rotation, append,
}

-- The journal was rotated: each file took the place of the one after it.
abbrev older : Option File → Option File → Option File
older none second = second
older (some file) second = some file

abbrev rotated : Disk → Disk
rotated d = record { current = none; first = d.current; second = older d.first d.second }

rotate-rotated :
    (f : Effects) (d : Disk) (file : File)
    → d.current ≡ some file
    → (rotate f d).1 ≡ true
    → (rotate f d).0 ≡ rotated d
unfolding rotate
rotate-rotated f d file c h = ground (arith, c, h)

write-line :
    (f : Effects) (line : Text) (d : Disk)
    → (write f line d).1 ≡ true
    → (write f line d).0 ≡ with_line d line
write-line f line d h = ground (arith, h)

after_rotation_lem :
    (f : Effects) (line : Text) (x : Disk × Bool)
    → (after_rotation f line x).1 ≡ true
    → (x.1 ≡ true)
      × ((write f line x.0).1 ≡ true)
      × ((after_rotation f line x).0 ≡ (write f line x.0).0)
after_rotation_lem f line (d, false) h = ground (arith, h)
after_rotation_lem f line (d, true) h = (refl, h, refl)

append-rotated :
    (f : Effects) (line : Text) (d : Disk)
    → f.directory_made ≡ true
    → needs_rotation line d.current ≡ true
    → append f line d ≡ after_rotation f line (rotate f d)
unfolding append
append-rotated f line d m n = rw (m, n) refl

-- A disk after a write that succeeded: the line was added, after a rotation if it was needed.
append-with_line :
    (f : Effects) (line : Text) (d : Disk)
    → (append f line d).1 ≡ true
    → (append f line d).0 ≡ with_line (if needs_rotation line d.current then rotated d else d) line
unfolding append
append-with_line f line d h = elim (Bool-cases f.directory_made) [
  | inr m ↦ ground (arith, m, h)
  | inl m ↦ elim (Bool-cases (needs_rotation line d.current)) [
    | inr n ↦
        let w : (write f line d).1 ≡ true = ground (arith, m, n, h) in
        rw (m, n) (write-line f line d w)
    | inl n ↦ elim (Option-cases d.current) [
      | inl c ↦ ground (arith, c, n)
      | inr (file, c) ↦
          let a = append-rotated f line d m n in
          let (r, w, e) = after_rotation_lem f line (rotate f d) (sym (ap (λ x. x.1) a) ∙ h) in
          ap (λ x. x.0) a
          ∙ e
          ∙ write-line f line _ w
          ∙ ap (λ d. with_line d line) (rotate-rotated f d file c r)
          ∙ rw n refl
    ]
  ]
]

-- The bytes of a file, and of the whole journal, oldest first.
abbrev pub bytes_of : Option File → Text
bytes_of o = (or_empty o).bytes

abbrev pub contents : Disk → Text
contents d = bytes_of d.second ++ bytes_of d.first ++ bytes_of d.current

contents-with_line : (d : Disk) (line : Text) → contents (with_line d line) ≡ contents d ++ line
contents-with_line d line =
    sym (append_assoc (bytes_of d.second ++ bytes_of d.first) (bytes_of d.current) line)

-- A rotation drops the second backup where there is a first one, and nothing else.
contents-rotated :
    (d : Disk)
    → (contents (rotated d) ≡ contents d)
      ⊎ ((first second : File) × (d.first ≡ some first)
          × (d.second ≡ some second)
          × (contents (rotated d) ≡ first.bytes ++ bytes_of d.current))
contents-rotated d = elim (Option-cases d.first) [
  | inl e ↦ inl (
      rw e (
        append-nil (bytes_of d.second ++ bytes_of d.current)
        ∙ ap (λ x. x ++ bytes_of d.current) (sym (append-nil (bytes_of d.second)))))
  | inr (file, e) ↦
      let k : contents (rotated d) ≡ file.bytes ++ bytes_of d.current =
        rw e (append-nil (file.bytes ++ bytes_of d.current)) in
      elim (Option-cases d.second) [
        | inl g ↦ inl (k ∙ rw (e, g) refl)
        | inr (other, g) ↦ inr (file, other, e, g, k)
      ]
]

-- No file of the journal is over its size.
pub record IsSmall (d : Disk) : Type 0 where
  pub small_current : length (bytes_of d.current) ≤ max_bytes
  pub small_first : length (bytes_of d.first) ≤ max_bytes
  pub small_second : length (bytes_of d.second) ≤ max_bytes

with_line-IsSmall :
    (d : Disk) (line : Text)
    → needs_rotation line d.current ≡ false
    → length line ≤ max_bytes
    → IsSmall d
    → IsSmall (with_line d line)
with_line-IsSmall d line n l v = record {
  small_current = elim (Option-cases d.current) [
    | inl c ↦ rw c l
    | inr (file, c) ↦
        let k : length file.bytes + length line ≤ max_bytes = ground (arith, c, n) in
        rw c (omega (arith, k, length-append file.bytes line))
  ];
  small_first = v.small_first;
  small_second = v.small_second;
}

rotated-IsSmall :
    (d : Disk) (line : Text)
    → length line ≤ max_bytes
    → IsSmall d
    → IsSmall (with_line (rotated d) line)
rotated-IsSmall d line l v = record {
  small_current = l;
  small_first = v.small_current;
  small_second = elim (Option-cases d.first) [
    | inl c ↦ rw c v.small_second
    | inr (file, c) ↦ let k = v.small_first in ground (arith, c, k)
  ];
}

-- What stood in the journal before a line was recorded stays before it; or the journal was full and had
-- both its backups, of which the second one, and nothing else, is gone.
pub data Keeps (line : Text) (d d' : Disk) : Type 0 where
  keeps_all : contents d' ≡ contents d ++ line → Keeps line d d'
  drops_second :
      (first second : File)
      → 1048576 < length (bytes_of d.current) + length line
      → d.first ≡ some first
      → d.second ≡ some second
      → contents d' ≡ first.bytes ++ bytes_of d.current ++ line
      → Keeps line d d'

full :
    (line : Text) (o : Option File)
    → needs_rotation line o ≡ true
    → 1048576 < length (bytes_of o) + length line
full line none h = absurd (ground (arith, h))
full line (some file) h = ground (arith, h)

-- An event that is recorded has its line at the end of the journal. What stood there before stays, or,
-- where the journal is full and has both its backups, stays but for the second backup. No file grows
-- over its size, where the line is not longer than that.
pub append-contents :
    (f : Effects) (line : Text) (d : Disk)
    → (append f line d).1 ≡ true
    → length line ≤ max_bytes
    → IsSmall d
    → Keeps line d (append f line d).0 × IsSmall (append f line d).0
append-contents f line d h l v =
    let e = append-with_line f line d h in
    elim (Bool-cases (needs_rotation line d.current)) [
      | inr n ↦
          let g : (append f line d).0 ≡ with_line d line = e ∙ rw n refl in
          (
            keeps_all (ap contents g ∙ contents-with_line d line),
            subst IsSmall (sym g) (with_line-IsSmall d line n l v),
          )
      | inl n ↦
          let g : (append f line d).0 ≡ with_line (rotated d) line = e ∙ rw n refl in
          let c = ap contents g ∙ contents-with_line (rotated d) line in
          (
            elim (contents-rotated d) [
              | inl k ↦ keeps_all (c ∙ ap (λ x. x ++ line) k)
              | inr (first, second, a, b, k) ↦
                  drops_second first second (full line d.current n) a b (c ∙ ap (λ x. x ++ line) k)
            ],
            subst IsSmall (sym g) (rotated-IsSmall d line l v),
          )
    ]
