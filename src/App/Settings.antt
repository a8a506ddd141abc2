-- ===== src/App/Settings.antt =====
-- The config command of src/main.cpp, from one run of the program to the next.
use lantalk.Common.{◌≡◌, refl, sym, ap, ◌∙◌, true, List, [], ◌∷◌, ◌++◌, some, Bytes, codes}
use lantalk.Common.ByteString.{eq_bytes}
use lantalk.Config.{AppConfig, Stored, bad_value, unknown_key, stored, set, get_as_string}
use lantalk.Config.Keys.{get_as_string-set}
use lantalk.Config.File.Savable.{IsSavable}
use lantalk.Config.Store.{Draw, Disk, save, loads, start_up}
use lantalk.Config.Store.Runs.{IsIdentified, save-IsKept}
use lantalk.App.{Shown, shown_set, prints, done, config_set, config_get, run_config}

-- What `config get` shows of a value.
abbrev pub shown_value : Bytes → Bytes → List Shown
shown_value key v = prints (key ++ codes " = " ++ v ++ codes "\n") ∷ []

stored_config : Stored → AppConfig → AppConfig
stored_config (stored c) d = c
stored_config bad_value d = d
stored_config unknown_key d = d

run_config-set :
    (d : Disk) (c e : AppConfig) (path key v : Bytes)
    → set c key v ≡ stored e
    → run_config d c path (codes "set" ∷ key ∷ v ∷ []) ≡ done (save d e).0 e (shown_set path key v)
unfolding run_config config_set eq_bytes
run_config-set d c e path key v h = rw (h, config_set) refl

run_config-get :
    (d : Disk) (c : AppConfig) (path key v : Bytes)
    → get_as_string c key ≡ some v
    → run_config d c path (codes "get" ∷ key ∷ []) ≡ done d c (shown_value key v)
unfolding run_config config_get eq_bytes
run_config-get d c path key v h = rw (h, config_get) refl

-- `config set` of a key that can be read, in one run of the program, and `config get` of it in a
-- later run: if the new configuration can be written as it is and has an identifier and a name,
-- save returns true and the file can be read, the later run starts with that configuration,
-- whatever it draws, and shows the value that was set.
pub config_set-get :
    (d : Disk) (c e : AppConfig) (path key v o : Bytes)
    → get_as_string c key ≡ some o
    → set c key v ≡ stored e
    → IsSavable e
    → IsIdentified e
    → d.readable ≡ true
    → (save d e).1 ≡ true
    → (b : Disk) × (run_config d c path (codes "set" ∷ key ∷ v ∷ [])
        ≡ done b e (shown_set path key v))
      × ((w : Draw) → start_up w b ≡ loads b e true)
      × (run_config b e path (codes "get" ∷ key ∷ []) ≡ done b e (shown_value key v))
unfolding stored_config
config_set-get d c e path key v o h f s i readable saved =
    let b = (save d e).0 in
    let (e1, f1, g) = get_as_string-set c key v h in
    let same : e1 ≡ e = ap (λ r. stored_config r c) (sym f1 ∙ f) in
    (
      b,
      run_config-set d c e path key v f,
      (save-IsKept d e s i readable).0 saved,
      run_config-get b e path key v (rw same at g),
    )
