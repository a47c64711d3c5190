-- ===== src/Fib/Subscribers.antt =====
-- The forwarding table against the registrations of its history.
use rt_fogros.Prelude.{◌≡◌, List, option_eq, done, Ensures-done}
use rt_fogros.Prelude.Assoc.{get}
use rt_fogros.Packet.Name.{GdpName, zero_name, name_eq}
use rt_fogros.Fib.Binding.{ConfigFile, read_binding_table}
use rt_fogros.Fib.Table.{Table, Delivery, receivers_of}
use rt_fogros.Fib.Step.{Event, run, new_table}
use rt_fogros.Fib.Registrations.{subscribers}
use rt_fogros.Fib.Growth.{Grows, run-Grows}

-- The binding table stays as it was read.
pub run-binding_table :
    (file : ConfigFile) (es : List Event) (t : Table) (ds : List Delivery)
    → run (new_table file) es ≡ done (t, ds)
    → t.binding_table ≡ read_binding_table file
unfolding new_table
run-binding_table file es t ds e =
    (Ensures-done
      (λ r.
        Grows zero_name (new_table file) (subscribers (read_binding_table file) zero_name es) r.0)
      (run (new_table file) es) (t, ds) e (run-Grows zero_name (new_table file) es)).0

-- After any history that does not panic, the table has for a name exactly the connections that the
-- history registered for it and that the binding table lets through, in order.
pub run-subscribers :
    (file : ConfigFile) (name : GdpName) (es : List Event) (t : Table) (ds : List Delivery)
    → run (new_table file) es ≡ done (t, ds)
    → receivers_of (get name t.rib_state_table) ≡ subscribers (read_binding_table file) name es
unfolding new_table get
run-subscribers file name es t ds e =
    (Ensures-done
      (λ r. Grows name (new_table file) (subscribers (read_binding_table file) name es) r.0)
      (run (new_table file) es) (t, ds) e (run-Grows name (new_table file) es)).1
