-- ===== src/Routing/Duality.antt =====
-- `flip_direction` and `direction_str_to_connection_type` of fogrs-core/src/routing_manager.rs.
use rt_fogros.Prelude.{
  ◌≡◌, refl, sym, ap, ◌∙◌, Text, codes, text_beq, text_beq_iff, Bool-cases, inl, inr, ◌⊎◌, Bool,
  if◌then◌else◌, ◌==◌, true, false, [], ◌∷◌, ◌≢◌, Outcome, done, panic,
}
use mathlib.Core.Path.{subst}
use rt_fogros.Fib.Types.{
  FibConnectionType, sender, receiver, request_sender, request_receiver, response_sender,
  response_receiver,
}
use rt_fogros.Routing.Direction.{
  to_uppercase, to_lowercase, connection_type_of, direction_str_to_connection_type, mapping,
  find_direction, flip_direction,
}
use rt_fogros.Routing.Case.{IsAscii, HasNoK, to_lowercase-to_uppercase, to_uppercase-to_lowercase}

-- The other end of a connection.
abbrev pub dual : FibConnectionType → FibConnectionType
dual sender = receiver
dual receiver = sender
dual request_sender = request_receiver
dual request_receiver = request_sender
dual response_sender = response_receiver
dual response_receiver = response_sender

-- The direction of a connection type, as `flip_direction` writes it.
abbrev pub direction_of : FibConnectionType → Text
direction_of sender = codes "pubsub-sender"
direction_of receiver = codes "pubsub-receiver"
direction_of request_sender = codes "request-sender"
direction_of request_receiver = codes "request-receiver"
direction_of response_sender = codes "response-sender"
direction_of response_receiver = codes "response-receiver"

connection_type-direction_of :
    (k : FibConnectionType) → connection_type_of (to_uppercase (direction_of k)) ≡ done k
unfolding text_beq
connection_type-direction_of sender = refl
connection_type-direction_of receiver = refl
connection_type-direction_of request_sender = refl
connection_type-direction_of request_receiver = refl
connection_type-direction_of response_sender = refl
connection_type-direction_of response_receiver = refl

find_direction-direction_of :
    (k : FibConnectionType) → find_direction mapping (direction_of k) ≡ done (direction_of (dual k))
unfolding text_beq
find_direction-direction_of sender = refl
find_direction-direction_of receiver = refl
find_direction-direction_of request_sender = refl
find_direction-direction_of request_receiver = refl
find_direction-direction_of response_sender = refl
find_direction-direction_of response_receiver = refl

lower-direction_of :
    (k : FibConnectionType) → to_lowercase (to_uppercase (direction_of k)) ≡ direction_of k
lower-direction_of sender = refl
lower-direction_of receiver = refl
lower-direction_of request_sender = refl
lower-direction_of request_receiver = refl
lower-direction_of response_sender = refl
lower-direction_of response_receiver = refl

-- A text is the upper case of a direction, or no connection type.
connection_type_of-cases :
    (s : Text)
    → ((k : FibConnectionType) × (s ≡ to_uppercase (direction_of k)))
      ⊎ (connection_type_of s ≡ panic)
connection_type_of-cases s = elim (Bool-cases (text_beq s (codes "PUBSUB-SENDER"))) [
  | inl h ↦ inl (sender, (text_beq_iff s _).0 h)
  | inr h₁ ↦ elim (Bool-cases (text_beq s (codes "PUBSUB-RECEIVER"))) [
    | inl h ↦ inl (receiver, (text_beq_iff s _).0 h)
    | inr h₂ ↦ elim (Bool-cases (text_beq s (codes "REQUEST-SENDER"))) [
      | inl h ↦ inl (request_sender, (text_beq_iff s _).0 h)
      | inr h₃ ↦ elim (Bool-cases (text_beq s (codes "REQUEST-RECEIVER"))) [
        | inl h ↦ inl (request_receiver, (text_beq_iff s _).0 h)
        | inr h₄ ↦ elim (Bool-cases (text_beq s (codes "RESPONSE-SENDER"))) [
          | inl h ↦ inl (response_sender, (text_beq_iff s _).0 h)
          | inr h₅ ↦ elim (Bool-cases (text_beq s (codes "RESPONSE-RECEIVER"))) [
            | inl h ↦ inl (response_receiver, (text_beq_iff s _).0 h)
            | inr h₆ ↦ inr (rw (h₁, h₂, h₃, h₄, h₅, h₆))
          ]
        ]
      ]
    ]
  ]
]

-- A text is a direction as `flip_direction` writes it, or no key.
find_direction-cases :
    (s : Text)
    → ((k : FibConnectionType) × (direction_of k ≡ s)) ⊎ (find_direction mapping s ≡ panic)
find_direction-cases s = elim (Bool-cases (text_beq (codes "request-receiver") s)) [
  | inl h ↦ inl (request_receiver, (text_beq_iff _ s).0 h)
  | inr h0 ↦ elim (Bool-cases (text_beq (codes "request-sender") s)) [
    | inl h ↦ inl (request_sender, (text_beq_iff _ s).0 h)
    | inr h1 ↦ elim (Bool-cases (text_beq (codes "response-sender") s)) [
      | inl h ↦ inl (response_sender, (text_beq_iff _ s).0 h)
      | inr h2 ↦ elim (Bool-cases (text_beq (codes "response-receiver") s)) [
        | inl h ↦ inl (response_receiver, (text_beq_iff _ s).0 h)
        | inr h3 ↦ elim (Bool-cases (text_beq (codes "pubsub-sender") s)) [
          | inl h ↦ inl (sender, (text_beq_iff _ s).0 h)
          | inr h4 ↦ elim (Bool-cases (text_beq (codes "pubsub-receiver") s)) [
            | inl h ↦ inl (receiver, (text_beq_iff _ s).0 h)
            | inr h5 ↦ inr (rw (h0, h1, h2, h3, h4, h5) refl)
          ]
        ]
      ]
    ]
  ]
]

direction_of-HasNoK : (k : FibConnectionType) → HasNoK (direction_of k)
direction_of-HasNoK k = has (direction_of k) (tested k)
  where
    differ : false ≢ true
    differ e = cc

    no_k : Text → Bool
    no_k [] = true
    no_k (c ∷ cs) = if c == b'k' then false else no_k cs

    tested : (k : FibConnectionType) → no_k (direction_of k) ≡ true
    tested sender = refl
    tested receiver = refl
    tested request_sender = refl
    tested request_receiver = refl
    tested response_sender = refl
    tested response_receiver = refl

    has : (s : Text) → no_k s ≡ true → HasNoK s
    has [] h = tt
    has (c ∷ cs) h = elim (Bool-cases (c == b'k')) [
      | inl k ↦ absurd (differ (rw k at h))
      | inr other ↦ (other, has cs (rw other at h))
    ]

done-panic : {k : FibConnectionType} → ◌≢◌ {A = Outcome FibConnectionType} (done k) panic
done-panic e = cc

done-done :
    {a b : FibConnectionType} → ◌≡◌ {A = Outcome FibConnectionType} (done a) (done b) → a ≡ b
done-done e = cc

-- A direction that stands for a connection type is, but for its case, the direction of the type.
pub upper-of_type :
    (d : Text) (k : FibConnectionType)
    → direction_str_to_connection_type d ≡ done k
    → to_uppercase d ≡ to_uppercase (direction_of k)
unfolding direction_str_to_connection_type
upper-of_type d k h = elim (connection_type_of-cases (to_uppercase d)) [
  | inr p ↦ absurd (done-panic (sym h ∙ p))
  | inl (k', e) ↦
      e
      ∙ ap (λ x. to_uppercase (direction_of x))
          (done-done (sym (connection_type-direction_of k') ∙ sym (ap connection_type_of e) ∙ h))
]

pub lower-of_type :
    (d : Text) (k : FibConnectionType)
    → IsAscii d
    → direction_str_to_connection_type d ≡ done k
    → to_lowercase d ≡ direction_of k
lower-of_type d k ascii h =
    sym (to_lowercase-to_uppercase d ascii)
    ∙ ap to_lowercase (upper-of_type d k h)
    ∙ lower-direction_of k

flip-lower_of_type :
    (d : Text) (k : FibConnectionType)
    → to_lowercase d ≡ direction_of k
    → flip_direction d ≡ done (direction_of (dual k))
unfolding flip_direction
flip-lower_of_type d k e = ap (find_direction mapping) e ∙ find_direction-direction_of k

-- A text that `flip_direction` takes is a direction that stands for a connection type, whatever the
-- case of its letters, and flips to the direction, in lower case, of the other end's connection type.
-- A text that it does not take panics it, and stands for no connection type, or has characters beyond
-- ASCII whose upper case is ASCII.
pub flip_direction_lem :
    (d : Text)
    → ((k : FibConnectionType) × (direction_str_to_connection_type d ≡ done k)
        × (flip_direction d ≡ done (direction_of (dual k)))
        × (direction_str_to_connection_type (direction_of (dual k)) ≡ done (dual k)))
      ⊎ ((flip_direction d ≡ panic)
          × ((direction_str_to_connection_type d ≡ panic)
              ⊎ ((k : FibConnectionType) × (direction_str_to_connection_type d ≡ done k)
                  × ¬ IsAscii d)))
unfolding direction_str_to_connection_type flip_direction
flip_direction_lem d = elim (find_direction-cases (to_lowercase d)) [
  | inl (k, e) ↦
      let upper_e =
        sym (to_uppercase-to_lowercase d (subst HasNoK e (direction_of-HasNoK k)))
        ∙ ap to_uppercase (sym e) in
      inl (
        k,
        ap connection_type_of upper_e ∙ connection_type-direction_of k,
        flip-lower_of_type d k (sym e),
        connection_type-direction_of (dual k),
      )
  | inr p ↦ inr (
    flips p,
    elim (connection_type_of-cases (to_uppercase d)) [
      | inr q ↦ inl q
      | inl (k, e) ↦
          let typed = ap connection_type_of e ∙ connection_type-direction_of k in
          inr (k, typed, λ ascii. stuck k typed p ascii)
    ],
  )
]
  where
    flips : find_direction mapping (to_lowercase d) ≡ panic → flip_direction d ≡ panic
    flips p = p

    apart : {t : Text} → ◌≢◌ {A = Outcome Text} (done t) panic
    apart e = cc

    stuck :
        (k : FibConnectionType)
        → direction_str_to_connection_type d ≡ done k
        → find_direction mapping (to_lowercase d) ≡ panic
        → ¬ IsAscii d
    stuck k typed p ascii =
        apart (sym (flip-lower_of_type d k (lower-of_type d k ascii typed)) ∙ flips p)

pub type-direction_of :
    (k : FibConnectionType) → direction_str_to_connection_type (direction_of k) ≡ done k
unfolding direction_str_to_connection_type
type-direction_of k = connection_type-direction_of k
