-- ===== src/Std/Disk.antt =====
-- `std::fs` and `Path::exists`, over a map from paths to files and directories. What the operating
-- system refuses, and what of a write reaches the file, is the caller's parameter `Os`.
pub mod Laws
use tracers.Prelude.{
  ℕ, String, Bool, true, false, Option, none, some, List, [], ◌∷◌, ◌++◌, ◌&&◌, ◌||◌, str_eq,
  if◌then◌else◌, Result, ok, err,
}
use tracers.Std.FilePath.{FilePath, parent}
use tracers.Std.FilePath.Equality.{path_eq, bool_eq}
use tracers.Error.{Failure, Fallible, format_err}

abbrev pub Bytes : Type 0
Bytes = List ℕ

pub data Node : Type 0 where
  directory : Node
  file : Bytes → Node

abbrev pub Disk : Type 0
Disk = FilePath → Option Node

-- A refusal of each operation at a path, and for a write the failure it reports with the bytes that
-- stay in the file.
pub record Os : Type 0 where
  pub open_failure : FilePath → Option Failure
  pub create_failure : FilePath → Option Failure
  pub mkdir_failure : FilePath → Option Failure
  pub stored : FilePath → Bytes → Option Failure × Bytes

abbrev pub put : FilePath → Node → Disk → Disk
put p n disk q = if path_eq q p then some n else disk q

-- `p.exists()`
abbrev pub exists : Disk → FilePath → Bool
exists disk p = elim (disk p) [ some _ ↦ true | none ↦ false ]

abbrev pub is_file : Option Node → Bool
is_file (some (file _)) = true
is_file _ = false

-- The root and the working directory are always there.
abbrev pub has_directory : Disk → FilePath → Bool
has_directory disk p = elim p.components [
  | [] ↦ true
  | _ ∷ _ ↦ elim (disk p) [ some n ↦ elim n [ directory ↦ true | file _ ↦ false ] | none ↦ false ]
]

-- `File::open(p)` and reading to the end
unfoldable pub read_file : Os → Disk → FilePath → Fallible Bytes
read_file os disk p = elim (os.open_failure p) [
  | some e ↦ err e
  | none ↦ elim (disk p) [
    | some n ↦ elim n [
      | file bytes ↦ ok bytes
      | directory ↦ err (format_err "Is a directory (os error 21)")
    ]
    | none ↦ err (format_err "No such file or directory (os error 2)")
  ]
]

abbrev pub parent_is_there : Disk → FilePath → Bool
parent_is_there disk p = elim (parent p) [ some q ↦ has_directory disk q | none ↦ false ]

-- `File::create(p)`: the failure it reports, and the disk after it.
unfoldable pub create : Os → Disk → FilePath → Option Failure × Disk
create os disk p = elim (os.create_failure p) [
  | some e ↦ (some e, disk)
  | none ↦
      if has_directory disk p
      then (some (format_err "Is a directory (os error 21)"), disk)
      else if parent_is_there disk p
      then (none, put p (file []) disk)
      else (some (format_err "No such file or directory (os error 2)"), disk)
]

-- Writing all of `bytes` to the file just created at `p`.
unfoldable pub write : Os → Disk → FilePath → Bytes → Option Failure × Disk
write os disk p bytes = let (failure, kept) = os.stored p bytes in (failure, put p (file kept) disk)

abbrev held : Option Node → Bytes
held (some (file old)) = old
held _ = []

-- Writing all of `bytes` to the file created at `p`, behind what was written to it before.
unfoldable pub append : Os → Disk → FilePath → Bytes → Option Failure × Disk
append os disk p bytes =
    let (failure, kept) = os.stored p bytes in (failure, put p (file (held (disk p) ++ kept)) disk)

is_prefix_of : List String → List String → Bool
is_prefix_of [] _ = true
is_prefix_of (c ∷ cs) [] = false
is_prefix_of (c ∷ cs) (d ∷ ds) = str_eq c d && is_prefix_of cs ds

-- `q` is `p` or lies above it.
unfoldable pub is_ancestor : FilePath → FilePath → Bool
unfolding is_prefix_of
is_ancestor q p = bool_eq q.absolute p.absolute && is_prefix_of q.components p.components

-- A file stands where a directory on the way to `behind` is wanted.
unfoldable pub is_blocked : Disk → Bool → List String → List String → Bool
is_blocked disk absolute front [] = false
is_blocked disk absolute front (c ∷ behind) =
    is_file (disk (record { absolute = absolute; components = front ++ c ∷ [] }))
    || is_blocked disk absolute (front ++ c ∷ []) behind

abbrev pub or_directory : Option Node → Option Node
or_directory none = some directory
or_directory (some n) = some n

-- `std::fs::create_dir_all(p)`. One that fails is taken to leave no directory behind.
unfoldable pub create_dir_all : Os → Disk → FilePath → Option Failure × Disk
create_dir_all os disk p = elim (os.mkdir_failure p) [
  | some e ↦ (some e, disk)
  | none ↦
      if is_blocked disk p.absolute [] p.components
      then (some (format_err "Not a directory (os error 20)"), disk)
      else (none, λ q. if is_ancestor q p then or_directory (disk q) else disk q)
]
