-- ===== src/BuildRs/BuildInfo/Handover.antt =====
-- What one build saves is what the builds and proc macros behind it load (`BuildInfo` of
-- tracers-codegen/src/build_rs.rs).
use tracers.Prelude.{
  ◌<>◌, inl, inr, Bool-cases, Option-cases, All, All-append, str_eq, >>=-OnOk, OnOk,
}
use tracers.Std.FilePath
use tracers.Std.FilePath.{FilePath, join}
use tracers.Std.FilePath.Parse.{from, from-IsName, IsName}
use tracers.Std.Environment.{Environment}
use tracers.BuildRs.BuildInfo.{BuildInfo, own_build_path, get_build_path, or_default, var_or_error}

abbrev pub HasNames : FilePath → Type 0
HasNames p = All IsName p.components

join-HasNames : (p q : FilePath) → HasNames p → HasNames q → HasNames (join p q)
unfolding join
join-HasNames p q hp hq = elim (Bool-cases q.absolute) [
  | inl absolute ↦ rw absolute hq
  | inr relative ↦ rw relative (All-append IsName p.components hp q.components hq)
]

own_build_path-HasNames : (env : Environment) → OnOk HasNames (own_build_path env)
unfolding own_build_path
own_build_path-HasNames env = >>=-OnOk HasNames (var_or_error env "CARGO_PKG_NAME") _ (λ name.
    >>=-OnOk HasNames (var_or_error env "CARGO_PKG_VERSION") _ (λ version.
      >>=-OnOk HasNames (var_or_error env "OUT_DIR") _ (λ out_dir.
        join-HasNames (from out_dir) (from (name <> "-" <> version <> "/buildinfo.json"))
          (from-IsName out_dir) (from-IsName _))))

-- The path is displayed and read back whole.
pub get_build_path-HasNames : (env : Environment) → OnOk HasNames (get_build_path env)
unfolding get_build_path
get_build_path-HasNames env =
    elim (Bool-cases (str_eq "tracers" (or_default (env "CARGO_PKG_NAME")))) [
      | inl own ↦ rw own (own_build_path-HasNames env)
      | inr other ↦ rw other (elim (Option-cases (env "DEP_TRACERS_BUILD_INFO_PATH")) [
        | inr (path, found) ↦ rw found (from-IsName path)
        | inl none_found ↦ rw none_found (elim (Option-cases (env "TRACERS_BUILD_INFO_PATH")) [
          | inr (path, found) ↦ rw found (from-IsName path)
          | inl missing ↦ rw missing tt
        ])
      ])
    ]
