-- ===== src/Fib/Connections.antt =====
-- What every connection in the table is, and so who a packet can be delivered to.
use rt_fogros.Prelude.{
  Text, ◌≡◌, refl, sym, ap, ◌∙◌, true, Bool-cases, inl, inr, Option, none, some, [], ◌∷◌, All,
  All-append, option_eq, text_eq, codes, text_beq, text_beq_iff, starts_with, ◌++◌, ◌⊎◌,
  Option-cases, arith, Ensures, Ensures-unwrap,
}
use rt_fogros.Prelude.Assoc.{Assoc, get, insert}
use rt_fogros.Packet.Name.{GdpName, name_eq}
use rt_fogros.Fib.Types.{
  FibState, FibConnection, FibConnectionType, receiver, request_receiver, response_receiver,
  FibStateChange, running,
}
use rt_fogros.Fib.Table.{Table, receivers_of}
use rt_fogros.Fib.Update.{
  is_receiver, is_bound, in_binding_table, connection_of, push_receiver, add_receiver,
}

-- There is no binding table, the interface is that of ROS, or the table has a prefix of the address
-- for the interface.
abbrev pub IsBound : Option (Assoc Text Text) → Text → Text → Type 0
IsBound none interface address = Unit
IsBound (some table) interface address =
    (interface ≡ codes "ros")
    ⊎ ((prefix : Text) × (rest : Text) × (get interface table ≡ some prefix)
        × (address ≡ prefix ++ rest))

starts_with-prefix :
    (s prefix : Text) → starts_with s prefix ≡ true → (rest : Text) × (s ≡ prefix ++ rest)
unfolding starts_with
starts_with-prefix s [] h = (s, refl)
starts_with-prefix [] (y ∷ ys) h = ground arith
starts_with-prefix (x ∷ xs) (y ∷ ys) h =
    let (rest, e) = starts_with-prefix xs ys (ground (arith, h)) in (rest, ground (arith, h, e))

in_binding_table-IsBound :
    (table : Assoc Text Text) (interface address : Text)
    → in_binding_table (some table) interface address ≡ true
    → IsBound (some table) interface address
unfolding in_binding_table
in_binding_table-IsBound table interface address h = elim (Option-cases (get interface table)) [
  | inl missing ↦ absurd (ground (arith, missing, h))
  | inr (prefix, found) ↦
      let (rest, e) = starts_with-prefix address prefix (rw found at h) in
      inr (prefix, rest, found, e)
]

is_bound-IsBound :
    (binding : Option (Assoc Text Text)) (interface address : Text)
    → is_bound binding interface address ≡ true
    → IsBound binding interface address
unfolding is_bound
is_bound-IsBound none interface address h = tt
is_bound-IsBound (some table) interface address h =
    elim (Bool-cases (text_beq interface (codes "ros"))) [
      | inl ros ↦ inl ((text_beq_iff interface (codes "ros")).0 ros)
      | inr other ↦ in_binding_table-IsBound table interface address (rw other at h)
    ]

-- The three kinds of connections that packets are delivered to.
abbrev pub Receives : FibConnectionType → Type 0
Receives kind = (kind ≡ receiver) ⊎ (kind ≡ request_receiver) ⊎ (kind ≡ response_receiver)

is_receiver-Receives : (kind : FibConnectionType) → is_receiver kind ≡ true → Receives kind
is_receiver-Receives receiver h = inl refl
is_receiver-Receives request_receiver h = inr (inl refl)
is_receiver-Receives response_receiver h = inr (inr refl)
is_receiver-Receives _ h = ground arith

-- A connection that runs, receives, and is bound.
abbrev pub IsAdmitted : Option (Assoc Text Text) → FibConnection → Type 0
IsAdmitted binding c =
    (interface : Text) × (address : Text) × (c.interface ≡ some interface)
    × (c.address ≡ some address)
    × IsBound binding interface address
    × (c.state ≡ running)
    × Receives c.connection_type

abbrev AreAdmitted : Option (Assoc Text Text) → FibState → Type 0
AreAdmitted binding s = All (IsAdmitted binding) s.receivers

abbrev pub TableIsAdmitted : Option (Assoc Text Text) → Assoc GdpName FibState → Type 0
TableIsAdmitted binding = All (λ e. All (IsAdmitted binding) e.1.receivers)

module _ (binding : Option (Assoc Text Text)) where
  pub get-AreAdmitted :
      (name : GdpName) (m : Assoc GdpName FibState)
      → TableIsAdmitted binding m
      → All (IsAdmitted binding) (receivers_of (get name m))
  unfolding get
  get-AreAdmitted name [] a = tt
  get-AreAdmitted name ((k, s) ∷ m) a = elim (Bool-cases (name_eq.beq k name)) [
    | inl same ↦ rw same a.0
    | inr other ↦ rw other (get-AreAdmitted name m a.1)
  ]

  insert-TableIsAdmitted :
      (name : GdpName) (s : FibState) (m : Assoc GdpName FibState)
      → AreAdmitted binding s
      → TableIsAdmitted binding m
      → TableIsAdmitted binding (insert name s m)
  unfolding insert
  insert-TableIsAdmitted name s [] h a = (h, tt)
  insert-TableIsAdmitted name s ((k, r) ∷ m) h a = elim (Bool-cases (name_eq.beq k name)) [
    | inl same ↦ rw same (h, a.1)
    | inr other ↦ rw other (a.0, insert-TableIsAdmitted name s m h a.1)
  ]

  push_receiver-AreAdmitted :
      (o : Option FibState) (c : FibConnection)
      → All (IsAdmitted binding) (receivers_of o)
      → IsAdmitted binding c
      → AreAdmitted binding (push_receiver o c)
  push_receiver-AreAdmitted none c a h = (h, tt)
  push_receiver-AreAdmitted (some s) c a h =
      All-append (IsAdmitted binding) s.receivers (c ∷ []) a (h, tt)

-- The table's binding does not change, and its connections are admitted by it.
pub record IsSound (binding : Option (Assoc Text Text)) (t : Table) : Type 0 where
  pub same_binding : t.binding_table ≡ binding
  pub admitted : TableIsAdmitted binding t.rib_state_table

module _ (binding : Option (Assoc Text Text)) where
  pub add_receiver-IsSound :
      (t : Table) (update : FibStateChange)
      → is_receiver update.connection_type ≡ true
      → IsSound binding t
      → Ensures (IsSound binding) (add_receiver t update)
  unfolding add_receiver
  add_receiver-IsSound t update receiving s =
      Ensures-unwrap (IsSound binding) update.interface _ λ interface i.
        Ensures-unwrap (IsSound binding) update.address _ λ address a.
          elim (Bool-cases (is_bound t.binding_table interface address)) [
            | inr unbound ↦ rw unbound s
            | inl bound ↦ rw bound (
                Ensures-unwrap (IsSound binding) update.forward_destination _ (λ tx f. record {
                  same_binding = s.same_binding;
                  admitted =
                      insert-TableIsAdmitted binding update.topic_gdp_name _ t.rib_state_table
                        (push_receiver-AreAdmitted binding
                          (get update.topic_gdp_name t.rib_state_table) (connection_of update tx)
                          (get-AreAdmitted binding update.topic_gdp_name t.rib_state_table
                            s.admitted)
                          (
                            interface,
                            address,
                            i,
                            a,
                            is_bound-IsBound binding interface address (
                                ap (λ b. is_bound b interface address) (sym s.same_binding)
                                ∙ bound),
                            refl,
                            is_receiver-Receives update.connection_type receiving,
                          ))
                        s.admitted;
                }))
          ]
