-- ===== src/Service/Profiles.antt =====
-- internal/service/profiles.go: the templates that a server loads at its start. The directory is a list of entries, as
-- os.ReadDir gives it, each with what os.ReadFile reads.
use hairpin.Base.{
  ◌≡◌, ◌≢◌, ◌⊎◌, inl, inr, Bool, Option, none, some, List, [], ◌∷◌, ◌++◌, Bytes, text, bytes_eq,
  is_empty, is_empty_iff, Assoc, lookup, insert, Result, ok, err, external, if◌then◌else◌, ◌>>=◌,
  arith, Bool-cases, Option-cases,
}
use hairpin.Proto.{RunConfig}
use hairpin.World.{Env}
use hairpin.Service.Submit.{Profiles, new_profiles}

pub record Entry : Type 0 where
  pub name : Bytes
  pub is_dir : Bool
  pub content : Option Bytes

-- What stands before ".json", if the name ends so.
abbrev pub cons_stem : Bytes → Option Bytes → Option Bytes
cons_stem c none = none
cons_stem c (some s) = some (c ++ s)

unfoldable pub json_stem : Bytes → Option Bytes
json_stem [] = none
json_stem (c ∷ cs) =
    let rest = json_stem cs in
    if bytes_eq (c ∷ cs) (text ".json") then some [] else cons_stem (c ∷ []) rest

module _ (env : Env) where
  abbrev pub read_config : Option Bytes → Result RunConfig
  read_config none = err (external (text "read profile"))
  read_config (some raw) = env.decode_config raw

  -- The loop over the directory: directories and other files are passed over.
  unfoldable pub load_each : List Entry → Assoc RunConfig → Result (Assoc RunConfig)
  unfolding json_stem
  load_each [] templates = ok templates
  load_each (e ∷ es) templates =
      let skipped = load_each es templates in
      if e.is_dir then skipped else elim (json_stem e.name) [
        | none ↦ skipped
        | some stem ↦ read_config e.content >>= λ cfg. load_each es (insert stem cfg templates)
      ]

  -- LoadProfiles; `read_dir` is os.ReadDir.
  unfoldable pub load_profiles : (Bytes → Option (List Entry)) → Bytes → Bytes → Result Profiles
  unfolding load_each new_profiles
  load_profiles read_dir dir default =
      if is_empty dir then new_profiles [] default else elim (read_dir dir) [
        | none ↦ err (external (text "read profiles dir"))
        | some entries ↦ load_each entries [] >>= λ templates. new_profiles templates default
      ]

-- A set that loads is empty and names no default, or its default, if it has one, is one of its templates.
pub new_profiles-default :
    (templates : Assoc RunConfig) (default : Bytes) (ps : Profiles)
    → new_profiles templates default ≡ ok ps
    → (ps.templates ≡ templates) × ((ps.default ≡ []) ⊎ (lookup ps.default ps.templates ≢ none))
unfolding new_profiles
new_profiles-default [] default ps h = (ground arith, inl (ground arith))
new_profiles-default (t ∷ ts) default ps h = elim (Bool-cases (is_empty default)) [
  | inl e ↦ (ground arith, inl (ground (arith, is_empty_iff default)))
  | inr e ↦ elim (Option-cases (lookup default (t ∷ ts))) [
    | inl g ↦ absurd (ground arith)
    | inr (cfg, g) ↦ (ground arith, inr (λ z. ground arith))
  ]
]
