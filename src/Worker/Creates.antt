-- ===== src/Worker/Creates.antt =====
-- When `create_and_normalize_out_dir` of src/worker.c succeeds, and with which path.
use jpipe.Common.{
  ℕ, zero, suc, ◌-◌, ◌≡◌, ◌≢◌, ◌≤◌, ◌<◌, ◌⊎◌, ◌↔◌, inl, inr, refl, sym, ap, ◌∙◌, true, Bool-cases,
  [], ◌∷◌, ◌++◌, Option, none, some, arith, ◌==◌, ==_iff, length, length-take, take, drop, get_or,
  Bytes, All, All-append, ap₂, append-nil, append_assoc,
}
use jpipe.Config.{jp_path_max}
use jpipe.Errno.{Errno}
use jpipe.Worker.{WorkerCtx}
use jpipe.Worker.Directory.{
  Files, strip_slashes, make_parents, output_of, normalize, create_and_normalize_out_dir,
}
use jpipe.Worker.Parents.{parents, made_before, normalize-dirs}

-- Every parent can be made, the path as well, and it is a directory that can be written to and has an
-- absolute path.
pub record Creates (files : Files) (tmp absolute_path : Bytes) : Type 0 where
  pub parents_made : All (λ path. files.mkdir path ≡ true) (parents (take 1 tmp) (drop 1 tmp))
  pub made : files.mkdir tmp ≡ true
  pub directory : files.is_dir tmp ≡ true
  pub access : files.writable tmp ≡ true
  pub resolved : files.realpath tmp ≡ some absolute_path

make_parents_iff :
    (files : Files) (before rest : Bytes)
    → ((make_parents files before rest).0 ≡ true)
      ↔ All (λ path. files.mkdir path ≡ true) (parents before rest)
unfolding make_parents parents
make_parents_iff files before [] = (λ _. tt, λ _. refl)
make_parents_iff files before (c ∷ rest) =
    let later = make_parents_iff files (before ++ c ∷ []) rest in
    elim (Bool-cases (c == b'/')) [
      | inl slash ↦ elim (Bool-cases (files.mkdir before)) [
        | inl made ↦ rw slash (rw made (λ h. (refl, later.0 h), λ h. later.1 h.1))
        | inr failed ↦ rw slash (rw failed (λ h. absurd (ground arith), λ h. absurd (ground arith)))
      ]
      | inr other ↦ rw other later
    ]

-- No slash at the end, but for the root.
abbrev pub IsStripped : Bytes → Type 0
IsStripped tmp = (length tmp ≤ 1) ⊎ (get_or tmp (length tmp - 1) 0 ≢ b'/')

-- Slashes are all that is taken off.
pub record Strips (output tmp : Bytes) : Type 0 where
  pub slashes : Bytes
  pub whole : output ≡ tmp ++ slashes
  pub all_slashes : All (λ c. c ≡ b'/') slashes
  pub stripped : IsStripped tmp

last_split : (n : ℕ) (tmp : Bytes) → suc n ≡ length tmp → tmp ≡ take n tmp ++ get_or tmp n 0 ∷ []
last_split n [] e = absurd (omega arith)
last_split zero (c ∷ []) e = refl
last_split zero (c ∷ d ∷ tmp) e = absurd (omega arith)
last_split (suc n) (c ∷ tmp) e = ap (λ t. c ∷ t) (last_split n tmp (omega arith))

nothing-Strips : (tmp : Bytes) → IsStripped tmp → Strips tmp tmp
nothing-Strips tmp h = record {
  slashes = [];
  whole = sym (append-nil tmp);
  all_slashes = tt;
  stripped = h;
}

strip_slashes-Strips : (n : ℕ) (tmp : Bytes) → n ≡ length tmp → Strips tmp (strip_slashes n tmp)
unfolding strip_slashes
strip_slashes-Strips zero tmp e = nothing-Strips tmp (inl (omega arith))
strip_slashes-Strips (suc zero) tmp e = nothing-Strips tmp (inl (omega arith))
strip_slashes-Strips (suc (suc n)) tmp e = elim (Bool-cases (get_or tmp (suc n) 0 == b'/')) [
  | inl slash ↦ rw slash (
      one_more (strip_slashes (suc n) (take (suc n) tmp))
        ((==_iff (get_or tmp (suc n) 0) b'/').0 slash)
        (strip_slashes-Strips (suc n) (take (suc n) tmp) (omega (arith, length-take (suc n) tmp))))
  | inr other ↦ rw other (
      nothing-Strips tmp (
        inr (λ at.
          let at_end : get_or tmp (suc n) 0 ≡ b'/' = ap (λ k. get_or tmp k 0) (omega arith) ∙ at in
          cc (other, (==_iff (get_or tmp (suc n) 0) b'/').1 at_end))))
]
  where
    one_more :
        (rest : Bytes)
        → get_or tmp (suc n) 0 ≡ b'/'
        → Strips (take (suc n) tmp) rest
        → Strips tmp rest
    one_more rest slash s = record {
      slashes = s.slashes ++ b'/' ∷ [];
      whole =
          last_split (suc n) tmp e
          ∙ ap₂ (λ t c. t ++ c ∷ []) s.whole slash
          ∙ append_assoc rest s.slashes (b'/' ∷ []);
      all_slashes = All-append (λ c. c ≡ b'/') s.slashes (b'/' ∷ []) s.all_slashes (refl, tt);
      stripped = s.stripped;
    }

path_cases : (o : Option Bytes) → (o ≡ none) ⊎ ((path : Bytes) × (o ≡ some path))
path_cases none = inl refl
path_cases (some path) = inr (path, refl)

none-some : (path : Bytes) → ¬ (none ≡ some path)
none-some path e = ground arith

module _ (files : Files) (ctx : WorkerCtx) (tmp : Bytes) where
  -- Both ways in which the calls end.
  abbrev Ends : Errno × WorkerCtx → Type 0
  Ends result =
      ((absolute_path : Bytes) × Creates files tmp absolute_path
        × (result ≡ (Errno.ok, record ctx { out_dir = some absolute_path })))
      ⊎ (((absolute_path : Bytes) → ¬ Creates files tmp absolute_path)
          × (result ≡ (Errno.eout_dir, ctx)))

  normalize-Ends : Ends ((normalize files tmp ctx).0)
  unfolding normalize
  normalize-Ends = elim (Bool-cases ((make_parents files (take 1 tmp) (drop 1 tmp)).0)) [
    | inr parents ↦ rw parents (
        inr (
          (λ path c.
              cc (parents, (make_parents_iff files (take 1 tmp) (drop 1 tmp)).1 c.parents_made)),
          refl,
        ))
    | inl parents ↦ rw parents (elim (Bool-cases (files.mkdir tmp)) [
      | inr made ↦ rw made (inr ((λ path c. cc (made, c.made)), refl))
      | inl made ↦ rw made (elim (Bool-cases (files.is_dir tmp)) [
        | inr dir ↦ rw dir (inr ((λ path c. cc (dir, c.directory)), refl))
        | inl dir ↦ rw dir (elim (Bool-cases (files.writable tmp)) [
          | inr access ↦ rw access (inr ((λ path c. cc (access, c.access)), refl))
          | inl access ↦ rw access (elim (path_cases (files.realpath tmp)) [
            | inl missing ↦
                rw missing
                  (inr ((λ path c. absurd (none-some path (sym missing ∙ c.resolved))), refl))
            | inr (path, found) ↦ rw found (
                inl (
                  path,
                  record {
                    parents_made = (make_parents_iff files (take 1 tmp) (drop 1 tmp)).0 parents;
                    made = made;
                    directory = dir;
                    access = access;
                    resolved = found;
                  },
                  refl,
                ))
          ])
        ])
      ])
    ])
  ]

-- For a path shorter than JP_PATH_MAX, create_and_normalize_out_dir takes slashes and nothing else
-- off the end of the path and leaves none there, but for a path of one byte at most; it succeeds,
-- with the absolute path in the context, where every parent and the path can be made, the path is
-- a directory that may be written to, and it has an absolute path; otherwise it returns
-- JP_EOUT_DIR and leaves the context as it was. Either way it leaves the directories that it has
-- made or found by then, which are the parents from the outermost on and the path, up to the first
-- that cannot be made.
pub create_and_normalize_out_dir-Creates :
    (files : Files) (ctx : WorkerCtx)
    → length (output_of ctx) < jp_path_max
    → let tmp = strip_slashes (length (output_of ctx)) (output_of ctx) in
      let result = create_and_normalize_out_dir files ctx in
      Strips (output_of ctx) tmp
      × (((absolute_path : Bytes) × Creates files tmp absolute_path
            × (result.0 ≡ (Errno.ok, record ctx { out_dir = some absolute_path })))
          ⊎ (((absolute_path : Bytes) → ¬ Creates files tmp absolute_path)
              × (result.0 ≡ (Errno.eout_dir, ctx))))
      × (result.1 ≡ made_before files (parents (take 1 tmp) (drop 1 tmp) ++ tmp ∷ []))
unfolding create_and_normalize_out_dir
create_and_normalize_out_dir-Creates files ctx _ =
    let output = output_of ctx in
    (
      strip_slashes-Strips (length output) output refl,
      normalize-Ends files ctx (strip_slashes (length output) output),
      normalize-dirs files (strip_slashes (length output) output) ctx,
    )
