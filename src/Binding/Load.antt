-- ===== src/Binding/Load.antt =====
-- `inj_init` and `inj_fini` of src/binding.c: what the library does when it is loaded, and when the
-- program ends. The calls that `dlsym` finds are the `System` of Calls. Loaded proves.
use libinject.Base.{ℕ, Bool, true, false, Option, none, some, [], Text, ℤ}
use libinject.Binding.{Bindings}
use libinject.Config.{Config, config_init}
use libinject.LigHt
use libinject.Outcome.{Outcome, done, ◌>>=◌}
use libinject.Queue.{ActionQueue}
use libinject.Read.Arguments.{Beyond}
use libinject.Read.Hosts.{Resolver}
use libinject.Rule.{Action}
use libinject.Runtime.Start.{Platform, RuntimeData, Started, start}

-- What `inj_init` asks the environment: whether `LIBINJ_DISABLE` is set, the text of the file that
-- `LIBINJ_CONFIG` names, if both are there, and that of `libinject.rules`. The memories are what
-- each `Config_init` finds in the port and in the buffer that it allocates.
pub record Environment : Type 0 where
  pub is_disabled : Bool
  pub named_rules : Option Text
  pub default_rules : Option Text
  pub named_memory : ℤ × Text
  pub default_memory : ℤ × Text

-- The variables of the library. Without `sockets`, the table of the bindings is not there.
pub record Loaded (W : Type 0) : Type 0 where
  pub bindings : Bindings
  pub has_sockets : Bool
  pub runtime : Option RuntimeData
  pub is_freed : Bool
  pub world : W

-- Bindings to no info.
abbrev pub unused : Bool → ActionQueue → Bindings
unused is_on q = record { is_on = is_on; queue = q; sockets = LigHt.init 16380 false; heap = [] }

-- No configuration.
abbrev pub switched_off : {W : Type 0} → Bool → W → Loaded W
switched_off has_sockets w = record {
  bindings = unused false [];
  has_sockets = has_sockets;
  runtime = none;
  is_freed = false;
  world = w;
}

abbrev pub switched_on : {W : Type 0} → Started W → Loaded W
switched_on s = record {
  bindings = unused true s.queue;
  has_sockets = true;
  runtime = s.runtime;
  is_freed = false;
  world = s.world;
}

module _ (resolver : Resolver) (beyond : Beyond) (time : ℕ) (memory : Action) (program : Text) where
  abbrev pub read_rules : ℤ × Text → Option Text → Outcome (Option Config)
  read_rules (port, raw) file = config_init resolver beyond time memory program port raw file

  abbrev pub or_default : Environment → Option Config → Outcome (Option Config)
  or_default e none = read_rules e.default_memory e.default_rules
  or_default e (some c) = done (some c)

  -- The configuration of the named file, or else of the default one.
  unfoldable pub load_config : Environment → Outcome (Option Config)
  load_config e = read_rules e.named_memory e.named_rules >>= or_default e

module _ {W : Type 0} (platform : Platform W) (resolver : Resolver) (beyond : Beyond) (time : ℕ)
    (memory : Action) (program : Text) where
  -- `if (config) Runtime_start(config)`, whose answer is not looked at.
  unfoldable pub start_with : W → Option Config → Outcome (Loaded W)
  start_with w none = done (switched_off true w)
  start_with w (some c) =
      start platform resolver beyond time memory c w >>= λ s. done (switched_on s)

  abbrev pub unless_disabled : Bool → Environment → W → Outcome (Loaded W)
  unless_disabled true e w = done (switched_off false w)
  unless_disabled false e w = load_config resolver beyond time memory program e >>= start_with w

  -- `inj_init`
  unfoldable pub inj_init : Environment → W → Outcome (Loaded W)
  inj_init e w = unless_disabled e.is_disabled e w

-- `inj_fini`: `config` is freed and keeps its value.
unfoldable pub inj_fini : {W : Type 0} → Loaded W → Loaded W
inj_fini l = record l { has_sockets = false; is_freed = l.bindings.is_on }
