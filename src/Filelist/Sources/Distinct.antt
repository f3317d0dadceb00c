-- ===== src/Filelist/Sources/Distinct.antt =====
-- chipchamp/filelist.py: `resolve_sources` ends, and its answer names no file twice.
use chipchamp.Prelude.{
  ℕ, ◌<◌, ◌≡◌, refl, Bool, true, false, ◌||◌, Option, some, List, [], ◌∷◌, length, Bool-cases, inl,
  inr, choose,
}
use chipchamp.Text.{Text, text_eq}
use chipchamp.Tools.Paths.{path_join}
use chipchamp.Filelist.{FileSet, mem, firsts, abspath, dedup}
use chipchamp.Filelist.Ends.{Grows, cons-Grows, Finite, parse_filelist-Ends}
use chipchamp.Filelist.Sources.{
  Fileset, Entries, add_filelists, resolve_sources, with_defines, take_in, finish, empty,
}

-- No key was seen, and none comes twice.
abbrev pub AreDistinct : (Text → Text) → List Text → List Text → Type 0
AreDistinct key seen [] = Unit
AreDistinct key seen (t ∷ ts) = (mem (key t) seen ≡ false) × AreDistinct key (key t ∷ seen) ts

not_later :
    (seen later : List Text) (t : Text)
    → Grows seen later
    → mem t later ≡ false
    → mem t seen ≡ false
not_later seen later t g h = elim (Bool-cases (mem t seen)) [ inl e ↦ cc (g t e) | inr e ↦ e ]

or_later : (a b c : Bool) → (b ≡ true → c ≡ true) → a || b ≡ true → a || c ≡ true
or_later true b c f h = refl
or_later false b c f h = f h

both-Grows : (t : Text) (seen later : List Text) → Grows seen later → Grows (t ∷ seen) (t ∷ later)
unfolding mem
both-Grows t seen later g u h = or_later (text_eq u t) (mem u seen) (mem u later) (g u) h

fewer_seen :
    (key : Text → Text) (ts seen later : List Text)
    → Grows seen later
    → AreDistinct key later ts
    → AreDistinct key seen ts
fewer_seen key [] seen later g d = tt
fewer_seen key (t ∷ ts) seen later g (n, d) = (
  not_later seen later (key t) g n,
  fewer_seen key ts (key t ∷ seen) (key t ∷ later) (both-Grows (key t) seen later g) d,
)

firsts-AreDistinct :
    (key : Text → Text) (seen ts : List Text) → AreDistinct key seen (firsts key seen ts)
unfolding firsts
firsts-AreDistinct key seen [] = tt
firsts-AreDistinct key seen (t ∷ ts) =
    let rest = firsts-AreDistinct key (key t ∷ seen) ts in
    choose (λ l. AreDistinct key seen l) (mem (key t) seen) _ _
      (λ e.
        fewer_seen key (firsts key (key t ∷ seen) ts) seen (key t ∷ seen) (cons-Grows (key t) seen)
          rest)
      (λ e. (e, rest))

module _ (cwd : Text) (read : Text → Option Text) (expand : Text → Text) (glob : Text → List Text)
    (load_core : Text → Option (List Fileset)) (load_bender : Text → Option Entries)
    (universe : List Text) (finite : Finite cwd read expand glob universe) where
  add_filelists_end :
      (root : Text) (fs : FileSet) (ls : List Text)
      → (out : FileSet) × ((fuel : ℕ)
          → length universe < fuel
          → add_filelists cwd read expand glob load_core load_bender fuel root fs ls ≡ some out)
  unfolding add_filelists
  add_filelists_end root fs [] = (fs, λ fuel h. refl)
  add_filelists_end root fs (l ∷ ls) =
      let (child, c) =
        parse_filelist-Ends cwd read expand glob universe finite (path_join root l) in
      let (out, k) = add_filelists_end root (with_defines (take_in fs child) child) ls in
      (out, λ fuel h. rw (add_filelists, c fuel h) (k fuel h))

  -- If only finitely many files exist, there is one file set that is the answer for all fuel above
  -- their number, and no two of its sources are the same file by their absolute paths.
  pub resolve_sources-AreDistinct :
      (root : Text) (filelists globs sources : List Text) (core bender : Option Text)
      → (fs : FileSet) × ((fuel : ℕ)
          → length universe < fuel
          → resolve_sources cwd read expand glob load_core load_bender fuel root filelists globs
              sources core bender
            ≡ some fs)
        × AreDistinct (abspath cwd read expand glob) [] fs.sources
  unfolding resolve_sources dedup
  resolve_sources-AreDistinct root filelists globs sources core bender =
      let (fs, k) = add_filelists_end root empty filelists in
      (
        finish cwd read expand glob load_core load_bender root globs sources core bender fs,
        λ fuel h. rw (resolve_sources, k fuel h),
        firsts-AreDistinct (abspath cwd read expand glob) [] _,
      )
