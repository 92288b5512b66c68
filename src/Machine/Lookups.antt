-- ===== src/Machine/Lookups.antt =====
-- Machines that are the same to every lookup: their tables may hold their entries in another order,
-- or entries that no lookup finds.
use obzenflow_fsm.Prelude.{String, ◌≡◌, sym, ◌∙◌, string_equality, pair_equality}
use obzenflow_fsm.HashMap
use obzenflow_fsm.Types.{StateVariant, EventVariant, World}
use obzenflow_fsm.Machine.{StateMachine}
use obzenflow_fsm.Machine.Serve.{Program, serve, machine_service}
use obzenflow_fsm.Machine.Tables.{tables}
use obzenflow_fsm.Machine.Rules.{rules_service, or_else}
use obzenflow_fsm.Machine.Rules.Refines.{seen, rules_of, machine-rules_service}

pub record SameLookups {S E C A : Type 0} (m n : StateMachine S E C A) : Type 0 where
  pub current : m.current_state ≡ n.current_state
  pub transitions :
      (k : String × String) → HashMap.get m.transitions k ≡ HashMap.get n.transitions k
  pub entries : (k : String) → HashMap.get m.entry_handlers k ≡ HashMap.get n.entry_handlers k
  pub exits : (k : String) → HashMap.get m.exit_handlers k ≡ HashMap.get n.exit_handlers k
  pub timeouts : (k : String) → HashMap.get m.timeout_handlers k ≡ HashMap.get n.timeout_handlers k
  pub unhandled : m.unhandled_handler ≡ n.unhandled_handler
  pub timer : m.state_timeout ≡ n.state_timeout

module _ {S E C A : Type 0} ⦃sv : StateVariant S⦄ ⦃ev : EventVariant E⦄ where
  rules_of-SameLookups :
      (m n : StateMachine S E C A)
      → SameLookups m n
      → rules_of ⦃sv = sv⦄ ⦃ev = ev⦄ (tables m) ≡ rules_of (tables n)
  rules_of-SameLookups m n same i = record {
    row = λ state event.
        or_else (same.transitions (sv.variant_name state, ev.variant_name event) i)
          (same.transitions ("_", ev.variant_name event) i);
    exit = λ state. same.exits (sv.variant_name state) i;
    entry = λ state. same.entries (sv.variant_name state) i;
    timeout = λ state. same.timeouts (sv.variant_name state) i;
    unhandled = same.unhandled i;
  }

  -- No host can tell such machines apart.
  pub serve-SameLookups :
      {R : Type 0} (program : Program E C A R) (w : World C) (m n : StateMachine S E C A)
      → SameLookups m n
      → seen (serve machine_service program (record { machine = m; world = w }))
        ≡ seen (serve machine_service program (record { machine = n; world = w }))
  serve-SameLookups program w m n same =
      machine-rules_service program (record { machine = m; world = w })
      ∙ (λ i.
          serve (rules_service (rules_of-SameLookups m n same i)) program
            (record { state = same.current i; timer = same.timer i; world = w }))
      ∙ sym (machine-rules_service program (record { machine = n; world = w }))
