-- ===== src/Agent/Digest.antt =====
-- chipchamp/agent/working_set.py: `digest_output`, the notice that replaces a tool's output, and
-- `_pinned`, which says what is never replaced at first. JSON is a parameter: `loads` reads an output,
-- and `dumps` prints the kept fields.
use chipchamp.Prelude.{
  ℕ, ◌-◌, Bool, true, false, not, ◌&&◌, ◌||◌, Option, none, some, List, [], ◌∷◌, ◌++◌, leb, ltb,
  ◌==◌, length, take, if◌then◌else◌,
}
use chipchamp.Text.{
  Text, codes, text_eq, starts_with, split, slash, is_empty, any, sorted_texts, take_while,
}
use chipchamp.Text.Numbers.{decimal}
use chipchamp.Dict.{Dict, get, keys}
use chipchamp.Agent.Transcript.{Result}

-- A value of a tool's result: a string, a number or the like with its truth and its text, or a
-- container with its truth, its text and the length of its dump.
pub data Value : Type 0 where
  string : Text → Value
  scalar : Bool → Text → Value
  container : Bool → Text → ℕ → Value

-- what `json.loads` makes of an output
pub data Loaded : Type 0 where
  no_json : Loaded
  no_dict : Loaded
  dict : Dict Value → Loaded

abbrev keep_keys : List Text
keep_keys =
    codes "job"
    ∷ codes "status"
    ∷ codes "sim_status"
    ∷ codes "verdict"
    ∷ codes "errors"
    ∷ codes "warnings"
    ∷ codes "accepted"
    ∷ codes "blocking_gates"
    ∷ codes "task_class"
    ∷ codes "coverage"
    ∷ codes "path"
    ∷ codes "seed"
    ∷ codes "cached"
    ∷ codes "denied"
    ∷ codes "error"
    ∷ codes "summary"
    ∷ codes "test"
    ∷ codes "top"
    ∷ codes "total_area_um2"
    ∷ codes "wns_ns"
    ∷ codes "slack_ns"
    ∷ codes "flake_rate"
    ∷ []

abbrev field_clip : ℕ
field_clip = 220

abbrev container_keep : ℕ
container_keep = 200

-- what is kept of a value, if anything
pub kept_value : Value → Option Value
kept_value (string t) =
    some (string (if ltb field_clip (length t) then take field_clip t ++ codes "…" else t))
kept_value (scalar b t) = some (scalar b t)
kept_value (container b t n) = if leb n container_keep then some (container b t n) else none

abbrev and_keep : Text → Option Value → Dict Value → Dict Value
and_keep k none kept = kept
and_keep k (some v) kept = (k, v) ∷ kept

abbrev look : Option Value → Option Value
look none = none
look (some v) = kept_value v

pub kept_fields : Dict Value → List Text → Dict Value
unfolding kept_value get
kept_fields data_ [] = []
kept_fields data_ (k ∷ ks) = and_keep k (look (get k data_)) (kept_fields data_ ks)

abbrev shown : Value → Text
shown (string t) = t
shown (scalar b t) = t
shown (container b t n) = t

abbrev holds : Option Value → Bool
holds none = false
holds (some (string t)) = not (is_empty t)
holds (some (scalar b t)) = b
holds (some (container b t n)) = b

abbrev shown_or : Option Value → Text
shown_or none = []
shown_or (some v) = shown v

-- `data.get("job") or data.get("waves_job")`, if that is true
abbrev pick : Option Value → Option Value → Option Value
pick a b = if holds a then a else b

pub pointer : Text → Dict Value → Text
unfolding get is_empty
pointer name data_ =
    let job = pick (get (codes "job") data_) (get (codes "waves_job") data_) in
    if holds job
    then codes "job " ++ (shown_or job ++ codes ": job.log / job.status")
    else if holds (get (codes "path") data_)
    then codes "fs.read " ++ shown_or (get (codes "path") data_)
    else codes "re-run " ++ name

abbrev missing_from : List Text → List Text → List Text
missing_from ks [] = []
missing_from ks (j ∷ js) =
    let rest = missing_from ks js in if any (λ k. text_eq j k) ks then rest else j ∷ rest

-- `", ".join(words)`
abbrev with_commas : List Text → Text
with_commas [] = []
with_commas (t ∷ []) = t
with_commas (t ∷ u ∷ ts) = t ++ (codes ", " ++ with_commas (u ∷ ts))

pub evicted_note : Text → Dict Value → List Text → Text
unfolding pointer decimal
evicted_note name data_ dropped =
    if is_empty dropped
    then []
    else codes " [evicted: "
      ++ (with_commas (take 8 dropped)
          ++ ((if ltb 8 (length dropped)
                then codes " (+" ++ (decimal (length dropped - 8) ++ codes " more)")
                else [])
              ++ (codes " — " ++ (pointer name data_ ++ codes "]"))))

-- `"path": "([^"]+)"` at the beginning of a text
abbrev quote : ℕ
quote = 34

abbrev path_mark : Text
path_mark = quote ∷ (codes "path" ++ (quote ∷ (codes ": " ++ quote ∷ [])))

pub after : Text → Text → Option Text
after [] s = some s
after (c ∷ p) [] = none
after (c ∷ p) (d ∷ s) = let rest = after p s in if c == d then rest else none

abbrev closed : Text → Text → Text
closed [] s = []
closed (c ∷ w) s = if ltb (length (c ∷ w)) (length s) then c ∷ w else []

abbrev quoted : Option Text → Text
quoted none = []
quoted (some s) = closed (take_while (λ c. not (c == quote)) s) s

-- the path of the first match, or nothing
pub path_in : Text → Text
unfolding after take_while
path_in [] = []
path_in (c ∷ s) =
    let here = quoted (after path_mark (c ∷ s)) in
    let rest = path_in s in if is_empty here then rest else here

abbrev last_part : List Text → Text
last_part [] = []
last_part (t ∷ []) = t
last_part (t ∷ u ∷ ts) = last_part (u ∷ ts)

-- library cards, fetched files and golden models
unfoldable pub is_pinned : List Text → Result → Bool
unfolding path_in starts_with text_eq split is_empty
is_pinned fetched r =
    starts_with r.name (codes "lib.")
    || text_eq r.name (codes "fs.read")
      && (let path = path_in r.output in
          let base = last_part (split slash path) in
          any (λ p. text_eq path p) fetched
          || starts_with path (codes "work/tb/verilator/")
            && (starts_with base (codes "ref_") || text_eq base (codes "tb_base.hpp")))

module _ (loads : Text → Loaded) (dumps : Dict Value → Text) where
  -- `digest_output`: the text, and whether it changed
  unfoldable pub digest_output : Text → Text → Text × Bool
  unfolding decimal kept_fields evicted_note sorted_texts is_empty
  digest_output name output =
      if leb (length output) 400 then (output, false) else elim (loads output) [
        | no_json ↦ (
          take field_clip output
              ++ (codes "… ["
                  ++ (decimal (length output - field_clip)
                      ++ codes " chars evicted from context; re-read with job.log / fs.read]")),
          true,
        )
        | no_dict ↦ (
          codes "["
              ++ (decimal (length output)
                  ++ (codes "-char "
                      ++ (name
                          ++ codes
                              " result evicted from context; re-run the tool to see it again]"))),
          true,
        )
        | dict data_ ↦
            let kept = kept_fields data_ keep_keys in
            let dropped = sorted_texts (missing_from (keys kept) (keys data_)) in
            (dumps kept ++ evicted_note name data_ dropped, true)
      ]
