-- ===== src/Configuration/Viper.antt =====
-- What configuration/configuration.go calls of viper, as a parameter: values by key, from the
-- environment, the main file and the defaults.
use fabric8_cluster.Common.{
  ℕ, String, Bool, Option, none, some, ◌≡◌, if◌then◌else◌, ◌==◌, string_eq, true, false,
}

-- `int`, over the native numbers; `negsuc n` is -(n + 1).
pub data ℤ : Type 0 where
  pos : ℕ → ℤ
  negsuc : ℕ → ℤ

-- A value; durations in nanoseconds.
pub data Setting : Type 0 where
  string : String → Setting
  int : ℤ → Setting
  bool : Bool → Setting
  duration : ℕ → Setting

pub record Viper : Type 1 where
  pub State : Type 0
  pub set_default : String → Setting → State → State
  pub is_set : State → String → Bool
  pub get_string : State → String → String
  -- `GetInt` and `GetInt64`, which agree on a machine with 64 bits.
  pub get_int : State → String → ℤ
  pub get_bool : State → String → Bool
  pub get_duration : State → String → ℕ
  -- What the environment or the main file say of a key, and what was set as its default.
  pub explicit : State → String → Option Setting
  pub default : State → String → Option Setting

abbrev pub or_else : {A : Type 0} → Option A → Option A → Option A
or_else none o = o
or_else (some a) o = some a

module _ (V : Viper) where
  -- "Get" follows the precedence: what is explicit, then the default.
  abbrev pub resolved : V.State → String → Option Setting
  resolved v k = or_else (V.explicit v k) (V.default v k)

  pub record IsLawful : Type 0 where
    pub explicit-set_default :
        (v : V.State) (k j : String) (x : Setting)
        → V.explicit (V.set_default k x v) j ≡ V.explicit v j
    pub default-set_default :
        (v : V.State) (k j : String) (x : Setting)
        → V.default (V.set_default k x v) j ≡ (if j == k then some x else V.default v j)
    pub is_set_absent : (v : V.State) (k : String) → resolved v k ≡ none → V.is_set v k ≡ false
    pub is_set_present :
        (v : V.State) (k : String) (x : Setting) → resolved v k ≡ some x → V.is_set v k ≡ true
    -- A value of the wanted type is given as it is.
    pub get_string_same :
        (v : V.State) (k s : String) → resolved v k ≡ some (string s) → V.get_string v k ≡ s
    pub get_string_absent : (v : V.State) (k : String) → resolved v k ≡ none → V.get_string v k ≡ ""
    pub get_int_same :
        (v : V.State) (k : String) (n : ℤ) → resolved v k ≡ some (int n) → V.get_int v k ≡ n
    pub get_bool_same :
        (v : V.State) (k : String) (b : Bool) → resolved v k ≡ some (bool b) → V.get_bool v k ≡ b
    pub get_duration_same :
        (v : V.State) (k : String) (n : ℕ)
        → resolved v k ≡ some (duration n)
        → V.get_duration v k ≡ n
