-- ===== src/Fileutil.antt =====
-- internal/fileutil/replace.go: `Replace`. The operating system's files are a value of an abstract
-- type, with the calls of packages os and ioutil as operations on it.
pub mod Safe
use Prim.Native.String.{◌++◌}
use job_raft.Base.{
  ℕ, zero, suc, ◌+◌, ◌-◌, ◌*◌, ◌≡◌, ◌≢◌, refl, sym, ap, ◌∙◌, ◌≤◌, ◌<◌, ◌⊎◌, inl, inr, String, Bool,
  true, false, not, ◌&&◌, ◌||◌, Option, none, some, List, [], ◌∷◌, arith, eq_iff, eq_refl, ◌==◌,
  ltb, if◌then◌else◌, Bool-cases, Option-cases, lookup, is_some, length, ℤ, pos, negsuc,
}
use job_raft.Task.{Err}
use job_raft.Store.{Result}

-- `read` is `ioutil.ReadFile`, with `none` for a file that does not exist.
pub record FileSystem (D : Type 0) : Type 0 where
  pub read : String → D → Result (Option String)
  pub write : String → String → D → Option Err × D
  pub rename : String → String → D → Option Err × D
  pub remove : String → D → Option Err × D
  pub is_not_exist : Err → Bool

module _ {D : Type 0} (fs : FileSystem D) where
  -- The last rename of the detour over the backup, and what follows it.
  unfoldable pub rename_again : String → String → String → D → Option Err × D
  rename_again src dst backup d =
      let again = fs.rename src dst d in
      elim again.0 [
        | some e ↦ (some e, (fs.rename backup dst again.1).1)
        | none ↦ fs.remove backup again.1
      ]

  unfoldable pub replace : String → String → D → Option Err × D
  replace src dst d =
      let first = fs.rename src dst d in
      let backup = dst ++ ".bak" in
      let moved = fs.rename dst backup (fs.remove backup first.1).1 in
      elim first.0 [
        | none ↦ (none, first.1)
        | some _ ↦ elim moved.0 [
          | some e ↦ if fs.is_not_exist e then fs.rename src dst moved.1 else (some e, moved.1)
          | none ↦ rename_again src dst backup moved.1
        ]
      ]
