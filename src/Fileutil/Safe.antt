-- ===== src/Fileutil/Safe.antt =====
-- internal/fileutil/replace.go: `Replace` loses no contents, whichever call of the system fails.
use job_raft.Store.{ok}
use job_raft.Task.{Err}
use Prim.Native.String.{◌++◌}
use job_raft.Base.{
  ◌≡◌, ◌∙◌, ◌⊎◌, inl, inr, String, false, Option, none, some, arith, eq_iff, ◌==◌, Bool-cases,
  Option-cases,
}
use job_raft.Fileutil.{FileSystem, replace, rename_again}

-- What the files hold after a call, as the documentation of package os has it. A failed call changes
-- nothing.
pub record IsDisk {D : Type 0} (fs : FileSystem D) : Type 0 where
  pub rename_target :
      (a b : String) (d : D)
      → (fs.rename a b d).0 ≡ none
      → fs.read b (fs.rename a b d).1 ≡ fs.read a d
  pub rename_others :
      (a b c : String) (d : D)
      → (c == a) ≡ false
      → (c == b) ≡ false
      → fs.read c (fs.rename a b d).1 ≡ fs.read c d
  pub rename_failed :
      (a b c : String) (d : D) (e : Err)
      → (fs.rename a b d).0 ≡ some e
      → fs.read c (fs.rename a b d).1 ≡ fs.read c d
  pub remove_others :
      (a c : String) (d : D) → (c == a) ≡ false → fs.read c (fs.remove a d).1 ≡ fs.read c d
  pub write_target :
      (a text : String) (d : D)
      → (fs.write a text d).0 ≡ none
      → fs.read a (fs.write a text d).1 ≡ ok (some text)
  pub write_others :
      (a text c : String) (d : D) → (c == a) ≡ false → fs.read c (fs.write a text d).1 ≡ fs.read c d

module _ {D : Type 0} (fs : FileSystem D) where
  -- The new contents are in place; or the call failed, and the old ones are there or in the backup.
  abbrev pub Kept : String → String → String → D → Option Err × D → Type 0
  Kept src dst backup d r =
      (fs.read dst r.1 ≡ fs.read src d)
      ⊎ ((e : Err) × (r.0 ≡ some e)
          × ((fs.read dst r.1 ≡ fs.read dst d) ⊎ (fs.read backup r.1 ≡ fs.read dst d)))

module _ {D : Type 0} (fs : FileSystem D) (disk : IsDisk fs) where
  -- The rename that the detour starts with has put the old contents into the backup.
  rename_again-Kept :
      (src dst backup : String) (d0 d : D)
      → (src == dst) ≡ false
      → (dst == src) ≡ false
      → (dst == backup) ≡ false
      → (backup == src) ≡ false
      → (backup == dst) ≡ false
      → fs.read src d ≡ fs.read src d0
      → fs.read backup d ≡ fs.read dst d0
      → Kept fs src dst backup d0 (rename_again fs src dst backup d)
  unfolding rename_again
  rename_again-Kept src dst backup d0 d n1 n2 n3 n4 n5 new old =
      elim (Option-cases (fs.rename src dst d).0) [
        | inl went ↦ inl (
            ground (
              arith,
              disk.rename_target src dst d went,
              disk.remove_others backup dst (fs.rename src dst d).1 n3,
            ))
        | inr (e, p) ↦
            let d' = (fs.rename src dst d).1 in
            let kept = disk.rename_failed src dst backup d e p in
            elim (Option-cases (fs.rename backup dst d').0) [
              | inl restored ↦
                  inr (
                    e,
                    ground arith,
                    inl (ground (arith, disk.rename_target backup dst d' restored)),
                  )
              | inr (f, q) ↦ inr (
                e,
                ground arith,
                inr (ground (arith, disk.rename_failed backup dst backup d' f q)),
              )
            ]
      ]

  -- The new file's contents are in place after `Replace`, or it failed and the old contents
  -- are in place or in the backup file beside it. The three names are different and the disk
  -- does what package os documents.
  pub replace-Kept :
      (src dst : String) (d : D)
      → (src == dst) ≡ false
      → (src == dst ++ ".bak") ≡ false
      → (dst == dst ++ ".bak") ≡ false
      → Kept fs src dst (dst ++ ".bak") d (replace fs src dst d)
  unfolding replace
  replace-Kept src dst d n1 n2 n3 =
      let backup = dst ++ ".bak" in
      let m1 : (dst == src) ≡ false = ground (arith, eq_iff src dst, eq_iff dst src) in
      let m2 : (backup == src) ≡ false = ground (arith, eq_iff src backup, eq_iff backup src) in
      let m3 : (backup == dst) ≡ false = ground (arith, eq_iff dst backup, eq_iff backup dst) in
      let first = fs.rename src dst d in
      let cleared = (fs.remove backup first.1).1 in
      let moved = fs.rename dst backup cleared in
      elim (Option-cases first.0) [
        | inl went ↦ inl (ground (arith, disk.rename_target src dst d went))
        | inr (e, p) ↦
            let src0 : fs.read src cleared ≡ fs.read src d =
              disk.remove_others backup src first.1 n2 ∙ disk.rename_failed src dst src d e p in
            let dst0 : fs.read dst cleared ≡ fs.read dst d =
              disk.remove_others backup dst first.1 n3 ∙ disk.rename_failed src dst dst d e p in
            elim (Option-cases moved.0) [
              | inl away ↦
                  let step : replace fs src dst d ≡ rename_again fs src dst backup moved.1 =
                    ground arith in
                  rw step (
                    rename_again-Kept src dst backup d moved.1 n1 m1 n3 m2 m3
                      (disk.rename_others dst backup src cleared n1 n2 ∙ src0)
                      (disk.rename_target dst backup cleared away ∙ dst0))
              | inr (f, q) ↦
                  let dst1 : fs.read dst moved.1 ≡ fs.read dst d =
                    disk.rename_failed dst backup dst cleared f q ∙ dst0 in
                  let src1 : fs.read src moved.1 ≡ fs.read src d =
                    disk.rename_failed dst backup src cleared f q ∙ src0 in
                  elim (Bool-cases (fs.is_not_exist f)) [
                    | inr other ↦ inr (f, ground arith, inl (ground arith))
                    | inl missing ↦
                        let step : replace fs src dst d ≡ fs.rename src dst moved.1 =
                          ground arith in
                        elim (Option-cases (fs.rename src dst moved.1).0) [
                          | inl went ↦
                              inl (rw step (disk.rename_target src dst moved.1 went ∙ src1))
                          | inr (g, r) ↦ inr (
                            g,
                            rw step r,
                            inl (rw step (disk.rename_failed src dst dst moved.1 g r ∙ dst1)),
                          )
                        ]
                  ]
            ]
      ]
