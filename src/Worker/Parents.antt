-- ===== src/Worker/Parents.antt =====
-- The directories that `create_and_normalize_out_dir` of src/worker.c makes on its way.
use jpipe.Common.{
  ◌≡◌, refl, sym, ◌∙◌, inl, inr, Bool-cases, List, [], ◌∷◌, ◌++◌, append-nil, arith, ◌==◌,
  if◌then◌else◌, take, drop, Bytes,
}
use jpipe.Worker.{WorkerCtx}
use jpipe.Worker.Directory.{Files, make_parents, normalize}

-- The texts in front of the slashes: the parents of the path, outermost first.
unfoldable pub parents : Bytes → Bytes → List Bytes
parents before [] = []
parents before (c ∷ rest) =
    let later = parents (before ++ c ∷ []) rest in if c == b'/' then before ∷ later else later

-- The paths in front of the first that cannot be made.
unfoldable pub made_before : Files → List Bytes → List Bytes
made_before files [] = []
made_before files (path ∷ paths) =
    let later = made_before files paths in if files.mkdir path then path ∷ later else []

made_before-parents :
    (files : Files) (before rest : Bytes) (paths : List Bytes)
    → made_before files (parents before rest ++ paths) ≡ (
        let made = make_parents files before rest in
        if made.0 then made.1 ++ made_before files paths else made.1)
unfolding make_parents parents made_before
made_before-parents files before [] paths = refl
made_before-parents files before (c ∷ rest) paths =
    let later = made_before-parents files (before ++ c ∷ []) rest paths in
    elim (Bool-cases (c == b'/')) [
      | inl slash ↦ elim (Bool-cases (files.mkdir before)) [
        | inl made ↦ rw slash (rw made (ground (arith, later)))
        | inr failed ↦ rw slash (rw failed)
      ]
      | inr other ↦ rw other later
    ]

module _ (files : Files) (tmp : Bytes) (ctx : WorkerCtx) where
  -- What is there does not depend on the calls behind `mkdir`.
  normalize-parents :
      let made = make_parents files (take 1 tmp) (drop 1 tmp) in
      (normalize files tmp ctx).1
      ≡ (if made.0 then made.1 ++ made_before files (tmp ∷ []) else made.1)
  unfolding normalize made_before
  normalize-parents =
      let parents = make_parents files (take 1 tmp) (drop 1 tmp) in
      elim (Bool-cases parents.0) [
        | inr failed ↦ rw failed
        | inl made ↦ rw made (elim (Bool-cases (files.mkdir tmp)) [
          | inr failed ↦ rw failed (sym (append-nil parents.1))
          | inl there ↦ rw there (ground arith)
        ])
      ]

  pub normalize-dirs :
      (normalize files tmp ctx).1
      ≡ made_before files (parents (take 1 tmp) (drop 1 tmp) ++ tmp ∷ [])
  normalize-dirs =
      normalize-parents ∙ sym (made_before-parents files (take 1 tmp) (drop 1 tmp) (tmp ∷ []))
