-- ===== src/Tests/Data.antt =====
-- What the other tests share: an operating system that refuses nothing, a serialiser of numbers, and
-- the world before a build.
use tracers.Prelude.{ℕ, String, none, some, List, [], ◌∷◌, ok, err, true}
use tracers.Std.FilePath.{FilePath}
use tracers.Std.Disk.{Bytes, Os, Node, put}
use tracers.Std.Exec.{World}
use tracers.Std.Environment.{Environment}
use tracers.Error.{Fallible, format_err}
use tracers.Cache.{Codec}

abbrev pub healthy : Os
healthy = record {
  open_failure = λ p. none;
  create_failure = λ p. none;
  mkdir_failure = λ p. none;
  stored = λ p bytes. (none, bytes);
}

-- A disk that fills up before the first byte is written.
abbrev pub full : Os
full = record healthy { stored = λ p bytes. (some (format_err "No space left on device"), []) }

abbrev decode_number : Bytes → Fallible ℕ
decode_number (n ∷ []) = ok n
decode_number _ = err (format_err "EOF while parsing a value")

abbrev pub numbers : Codec ℕ
numbers = record { encode = λ n. n ∷ []; decode = decode_number }

abbrev pub empty_world : World
empty_world = record { disk = λ p. none; out = [] }

abbrev pub absolute : List String → FilePath
absolute names = record { absolute = true; components = names }

abbrev pub world_with : FilePath → Node → World
world_with p n = record { disk = put p n (λ q. none); out = [] }

abbrev pub no_variables : Environment
no_variables name = none
