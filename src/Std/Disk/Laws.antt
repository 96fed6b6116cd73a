-- ===== src/Std/Disk/Laws.antt =====
-- `create_dir_all` makes a directory, and a file created and written under it can be read back.
use mathlib.Core.Option.{some-injective}
use tracers.Prelude.{
  String, Bool, true, false, Option, none, some, List, [], ◌∷◌, ◌++◌, ◌≡◌, refl, ap, sym, ◌∙◌,
  arith, str_eq_refl, if◌then◌else◌, ok, append_assoc, Option-cases, inl, inr,
}
use tracers.Std.FilePath.{FilePath, parent, init, parent-cons}
use tracers.Std.FilePath.Equality.{path_eq_refl, bool_eq}
use tracers.Error.{Failure}
use tracers.Std.Disk.{
  Bytes, Node, file, Disk, Os, put, exists, is_file, has_directory, read_file, parent_is_there,
  create, write, is_prefix_of, is_ancestor, is_blocked, or_directory, create_dir_all,
}

is_prefix_of_refl : (cs : List String) → is_prefix_of cs cs ≡ true
unfolding is_prefix_of
is_prefix_of_refl [] = refl
is_prefix_of_refl (c ∷ cs) = rw (str_eq_refl c, is_prefix_of_refl cs)

bool_eq_refl : (b : Bool) → bool_eq b b ≡ true
unfolding bool_eq
bool_eq_refl true = refl
bool_eq_refl false = refl

pub is_ancestor_refl : (p : FilePath) → is_ancestor p p ≡ true
unfolding is_ancestor
is_ancestor_refl p = rw (bool_eq_refl p.absolute, is_prefix_of_refl p.components)

-- Where nothing is in the way of `behind`, its last place holds no file.
not-is_blocked :
    (disk : Disk) (abs : Bool) (front : List String) (c : String) (behind : List String)
    → is_blocked disk abs front (c ∷ behind) ≡ false
    → is_file (disk (record { absolute = abs; components = front ++ c ∷ behind })) ≡ false
unfolding is_blocked
not-is_blocked disk abs front c [] h = ground arith
not-is_blocked disk abs front c (d ∷ behind) h =
    rw (← append_assoc front (c ∷ []) (d ∷ behind))
      (not-is_blocked disk abs (front ++ c ∷ []) d behind (ground arith))

-- The disk after `create_dir_all p` has succeeded.
abbrev pub with_directories : FilePath → Disk → Disk
with_directories p disk q = if is_ancestor q p then or_directory (disk q) else disk q

pub create_dir_all_lem :
    (os : Os) (disk : Disk) (p : FilePath)
    → os.mkdir_failure p ≡ none
    → is_blocked disk p.absolute [] p.components ≡ false
    → create_dir_all os disk p ≡ (none, with_directories p disk)
unfolding create_dir_all
create_dir_all_lem os disk p allowed clear = rw (allowed, clear, create_dir_all)

pub has_directory-with_directories :
    (disk : Disk) (abs : Bool) (cs : List String)
    → is_blocked disk abs [] cs ≡ false
    → has_directory
        (with_directories (record { absolute = abs; components = cs }) disk)
        (record { absolute = abs; components = cs })
      ≡ true
has_directory-with_directories disk abs [] h = refl
has_directory-with_directories disk abs (c ∷ cs) h =
    rw (is_ancestor_refl (record { absolute = abs; components = c ∷ cs }), has_directory)
      (ground (arith, not-is_blocked disk abs [] c cs h))

-- A file can be created where its parent is a directory and no directory stands in its place.
pub create_lem :
    (os : Os) (disk : Disk) (p : FilePath)
    → os.create_failure p ≡ none
    → has_directory disk p ≡ false
    → parent_is_there disk p ≡ true
    → create os disk p ≡ (none, put p (file []) disk)
unfolding create
create_lem os disk p allowed free there = rw (allowed, free, there, create)

pub put_self : (p : FilePath) (n : Node) (disk : Disk) → put p n disk p ≡ some n
put_self p n disk = rw (path_eq_refl p)

pub read_file-same :
    (os : Os) (d e : Disk) (p : FilePath) → d p ≡ e p → read_file os d p ≡ read_file os e p
unfolding read_file
read_file-same os d e p same = elim (Option-cases (os.open_failure p)) [
  | inr (error, refused) ↦ rw (refused, read_file) refl
  | inl allowed ↦ rw (allowed, same, read_file) refl
]

pub read_file-exists :
    (os : Os) (disk : Disk) (p : FilePath) (bytes : Bytes)
    → read_file os disk p ≡ ok bytes
    → exists disk p ≡ true
unfolding read_file
read_file-exists os disk p bytes h = elim (Option-cases (os.open_failure p)) [
  | inr (e, refused) ↦ absurd (cc (rw (refused, read_file) at h))
  | inl allowed ↦ elim (Option-cases (disk p)) [
    | inl missing ↦ absurd (cc (rw (allowed, missing, read_file) at h))
    | inr (n, there) ↦ rw (there, exists)
  ]
]

pub read_file-file :
    (os : Os) (disk : Disk) (p : FilePath) (bytes : Bytes)
    → os.open_failure p ≡ none
    → disk p ≡ some (file bytes)
    → read_file os disk p ≡ ok bytes
unfolding read_file
read_file-file os disk p bytes allowed there = rw (allowed, there, read_file)

longer-not-prefix : (c : String) (cs : List String) → is_prefix_of (c ∷ cs) (init (c ∷ cs)) ≡ false
unfolding is_prefix_of
longer-not-prefix c [] = refl
longer-not-prefix c (d ∷ cs) = rw (str_eq_refl c, longer-not-prefix d cs)

-- A path is no ancestor of its parent.
pub not-is_ancestor-parent :
    (abs : Bool) (cs : List String) {dir : FilePath}
    → parent (record { absolute = abs; components = cs }) ≡ some dir
    → is_ancestor (record { absolute = abs; components = cs }) dir ≡ false
unfolding is_ancestor parent bool_eq
not-is_ancestor-parent abs [] h = cc
not-is_ancestor-parent abs (c ∷ cs) {dir} h =
    rw (← some-injective _ dir (sym (parent-cons abs c cs) ∙ h))
      (ground (arith, longer-not-prefix c cs, bool_eq_refl abs))

-- A path that is free stays free when the directories above it are made.
pub free-with_directories :
    (disk : Disk) (abs : Bool) (cs : List String) {dir : FilePath}
    → parent (record { absolute = abs; components = cs }) ≡ some dir
    → exists disk (record { absolute = abs; components = cs }) ≡ false
    → has_directory (with_directories dir disk) (record { absolute = abs; components = cs }) ≡ false
unfolding parent
free-with_directories disk abs [] h absent = cc
free-with_directories disk abs (c ∷ cs) {dir} h absent =
    rw (not-is_ancestor-parent abs (c ∷ cs) h, has_directory) (ground arith)

pub write_lem :
    (os : Os) (disk : Disk) (p : FilePath) (bytes : Bytes) {failure : Option Failure} {kept : Bytes}
    → os.stored p bytes ≡ (failure, kept)
    → write os disk p bytes ≡ (failure, put p (file kept) disk)
unfolding write
write_lem os disk p bytes h = ap (λ (s : Option Failure × Bytes). (s.0, put p (file s.1) disk)) h
