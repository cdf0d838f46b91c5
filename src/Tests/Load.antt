-- ===== src/Tests/Load.antt =====
-- The library as it is loaded.
use libinject.Base.{
  ℕ, true, false, Option, none, some, [], ◌≡◌, ◌≢◌, refl, inl, pos, minus_one, codes,
}
use libinject.Binding.Load.{Environment, Loaded, inj_init, inj_fini, load_config, start_with}
use libinject.Binding.Loaded.{get_infos-Loaded, wrapped-off}
use libinject.Binding.References.{Obtained}
use libinject.Binding.Sequences.{no_step, one_more, buffer_call}
use libinject.Binding.{
  Bindings, Returned, get_infos, check_pointer, process_at, release, native, wrapped,
}
use libinject.Config.{config_init, config_line, trim_end, fgets}
use libinject.LigHt
use libinject.Outcome.{Outcome, done, fault}
use libinject.Process.{process}
use libinject.Queue
use libinject.Rule.Conditions.{match_action}
use libinject.Runtime.Start.{start}
use libinject.Socket
use libinject.Tests.Bindings.{connected_facts, no_host, write_system, returned_or}
use libinject.Tests.Control.{small_system, a_rule}
use libinject.Tests.Data.{clock, write_some, write_hello, one_host, nothing_beyond}

-- There is no named file, and the default one has no rule.
abbrev empty_rules : Environment
empty_rules = record {
  is_disabled = false;
  named_rules = none;
  default_rules = some (codes "; no rule");
  named_memory = (pos 0, []);
  default_memory = (pos 0, []);
}

abbrev switched : Environment
switched = record empty_rules { is_disabled = true }

abbrev loaded_or : Outcome (Loaded ℕ) → Loaded ℕ
loaded_or (done l) = l
loaded_or (fault e) = record {
  bindings = record { is_on = false; queue = []; sockets = LigHt.init 4 false; heap = [] };
  has_sockets = false;
  runtime = none;
  is_freed = true;
  world = 0;
}

abbrev at_load : Outcome (Loaded ℕ)
at_load = inj_init small_system one_host nothing_beyond 0 a_rule (codes "cat") empty_rules 0

abbrev loaded : Loaded ℕ
loaded = loaded_or at_load

at_load-done : at_load ≡ done loaded
unfolding inj_init load_config start_with config_init config_line trim_end fgets start
at_load-done = refl

abbrev first_write : Outcome (Returned ℕ)
first_write =
    wrapped clock 10 connected_facts no_host write_some (pos 5) write_hello loaded.bindings 0

abbrev written : Returned ℕ
written = returned_or loaded.bindings first_write

first_write-done : first_write ≡ done written
unfolding inj_init load_config start_with config_init config_line trim_end fgets start wrapped
    get_infos check_pointer process_at release native process LigHt.get LigHt.probe LigHt.init
    Socket.init Queue.get_match match_action
first_write-done = refl

five-ne : pos 5 ≢ minus_one
five-ne = λ e. cc

get_infos-Loaded_example :
    (r : Option ℕ × Bindings) × (get_infos connected_facts no_host (pos 5) written.bindings
      ≡ done r)
    × Obtained (pos 5) r
get_infos-Loaded_example =
    get_infos-Loaded small_system one_host nothing_beyond 0 a_rule (codes "cat") clock write_system
      empty_rules 0 loaded written.bindings connected_facts no_host (pos 5) at_load-done
      (one_more loaded.bindings loaded.bindings written.bindings (no_step loaded.bindings) (
        buffer_call 10 connected_facts no_host write_some (pos 5) write_hello loaded.bindings 0
          written five-ne first_write-done))
      five-ne

wrapped-off_example :
    (l : Loaded ℕ) × (inj_init small_system one_host nothing_beyond 0 a_rule
        (codes "cat")
        switched
        0
      ≡ done l)
    × (wrapped clock 10 connected_facts no_host write_some (pos 5) write_hello l.bindings 7
        ≡ done (native clock write_some (pos 5) write_hello l.bindings 7))
wrapped-off_example =
    wrapped-off small_system one_host nothing_beyond 0 a_rule (codes "cat") clock switched 0 10
      connected_facts no_host write_some (pos 5) write_hello 7 (inl refl)

-- `inj_fini` keeps the pointer to the configuration that it frees, but no table of sockets.
after_fini :
    ((inj_fini loaded).bindings.is_on ≡ true)
    × ((inj_fini loaded).is_freed ≡ true)
    × ((inj_fini loaded).has_sockets ≡ false)
unfolding inj_fini inj_init load_config start_with config_init config_line trim_end fgets start
after_fini = (refl, refl, refl)
