-- ===== src/Service/Queues.antt =====
-- What the requests of the HTTP interface put into the channels of `main_service_manager`.
use rt_fogros.Prelude.{
  ℕ, ◌≡◌, refl, ap, ◌∙◌, Text, codes, text_beq, Bool, true, false, Bool-cases, inl, inr,
  Option-cases, ◌&&◌, Option, none, some, List, [], ◌∷◌, ◌++◌, if◌then◌else◌, Outcome, done, panic,
  ◌>>=◌, unwrap, arith,
}
use rt_fogros.Packet.Construct.{Sha256}
use rt_fogros.Routing.Direction.{direction_str_to_connection_type}
use rt_fogros.Routing.Manager.{route_to}
use rt_fogros.Ros.Types.{TopicManagerRequest}
use rt_fogros.Ros.Manager.{Role}
use rt_fogros.Service.Words.{word, same_role, role_is, role_of_lem}
use rt_fogros.Service.Request.{RosTopicRequest}
use rt_fogros.Service.Manager.{
  Operation, topic, sender_routing, receiver_routing, role_of, topic_creator_request, End, to_net,
  from_net, end_of, routing_request, Routers, is_done, on_end, on_add, dispatch, after_operations,
}

-- What a channel of topics gets of the operations.
abbrev pub queue : Role → List Operation → List TopicManagerRequest
queue role [] = []
queue role (topic r request ∷ os) =
    let rest = queue role os in if same_role r role then request ∷ rest else rest
queue role (sender_routing request ∷ os) = queue role os
queue role (receiver_routing request ∷ os) = queue role os

-- The requests that add to a role.
abbrev pub adds : Role → RosTopicRequest → Bool
adds role p = text_beq p.api_op (codes "add") && text_beq p.ros_op (word role)

abbrev pub wanted : List ℕ → Role → List RosTopicRequest → List TopicManagerRequest
wanted certificate role [] = []
wanted certificate role (p ∷ ps) =
    let rest = wanted certificate role ps in
    if adds role p then topic_creator_request certificate p ∷ rest else rest

abbrev is_some : {A : Type 0} → Option A → Bool
is_some none = false
is_some (some a) = true

-- A sender's connection type makes a direction.
abbrev sends_to : Option Text → Bool
sends_to none = false
sends_to (some ct) = is_done (direction_str_to_connection_type (ct ++ codes "-sender"))

abbrev end_complete : RosTopicRequest → Option End → Bool
end_complete p none = true
end_complete p (some to_net) = sends_to p.connection_type && is_some p.forward_sender_url
end_complete p (some from_net) = is_some p.connection_type && is_some p.forward_receiver_url

-- A request for routing has what its end needs.
abbrev pub IsComplete : RosTopicRequest → Type 0
IsComplete p =
    (if text_beq p.api_op (codes "routing")
      then is_some p.topic_qos && end_complete p (end_of p.ros_op)
      else true)
    ≡ true

-- Both handlers of routing take requests.
abbrev pub all_open : Routers
all_open = record { sender_open = true; receiver_open = true }

-- What a complete request comes to.
pub record Sends (sha256 : Sha256) (certificate : List ℕ) (p : RosTopicRequest) : Type 0 where
  pub operations : List Operation
  pub sent : dispatch certificate all_open p ≡ done operations
  pub open_still : after_operations sha256 all_open operations ≡ all_open
  pub queued :
      (role : Role)
      → queue role operations
        ≡ (if adds role p then topic_creator_request certificate p ∷ [] else [])

module _ (sha256 : Sha256) (certificate : List ℕ) (p : RosTopicRequest) where
  on_add-queue :
      (o : Option Role) (role : Role)
      → queue role (on_add certificate p o)
        ≡ (if role_is o role then topic_creator_request certificate p ∷ [] else [])
  on_add-queue none role = refl
  on_add-queue (some r) role = refl

  on_add-open :
      (o : Option Role) → after_operations sha256 all_open (on_add certificate p o) ≡ all_open
  on_add-open none = refl
  on_add-open (some r) = refl

  add-Sends : text_beq p.api_op (codes "add") ≡ true → Sends sha256 certificate p
  unfolding dispatch
  add-Sends e = record {
    operations = on_add certificate p (role_of p.ros_op);
    sent = rw e refl;
    open_still = on_add-open (role_of p.ros_op);
    queued = λ role. on_add-queue (role_of p.ros_op) role ∙ rw (e, role_of_lem p.ros_op role) refl;
  }

  other-Sends :
      text_beq p.api_op (codes "add") ≡ false
      → text_beq p.api_op (codes "routing") ≡ false
      → Sends sha256 certificate p
  unfolding dispatch
  other-Sends e f = record {
    operations = [];
    sent = rw (e, f) refl;
    open_still = refl;
    queued = λ role. rw e refl;
  }

is_done-bind :
    {A B : Type 0} (m : Outcome A) (b : A → B)
    → is_done m ≡ true
    → is_done (m >>= λ a. done (b a)) ≡ true
is_done-bind (done a) b h = refl
is_done-bind panic b h = h

module _ (sha256 : Sha256) (certificate : List ℕ) (p : RosTopicRequest) (qos : Text) where
  record EndSends (o : Option End) : Type 0 where
    operations : List Operation
    sent : on_end certificate all_open p qos o ≡ done operations
    open_still : after_operations sha256 all_open operations ≡ all_open
    queued : (role : Role) → queue role operations ≡ []

  to_net-EndSends :
      (ct url : Text)
      → p.connection_type ≡ some ct
      → p.forward_sender_url ≡ some url
      → is_done (direction_str_to_connection_type (ct ++ codes "-sender")) ≡ true
      → EndSends (some to_net)
  unfolding route_to
  to_net-EndSends ct url c u h = record {
    operations = sender_routing (routing_request certificate p qos ct url) ∷ [];
    sent = rw (c, u) refl;
    open_still = ap (λ b. record { sender_open = b; receiver_open = true }) (is_done-bind _ _ h);
    queued = λ role. refl;
  }

  end-EndSends : (o : Option End) → end_complete p o ≡ true → EndSends o
  end-EndSends none h = record {
    operations = [];
    sent = refl;
    open_still = refl;
    queued = λ role. refl;
  }
  end-EndSends (some to_net) h = elim (Option-cases p.connection_type) [
    | inl missing ↦ cc (rw missing at h)
    | inr (ct, c) ↦ elim (Option-cases p.forward_sender_url) [
      | inl missing ↦ ground (arith, missing)
      | inr (url, u) ↦ to_net-EndSends ct url c u (ground (arith, c, u))
    ]
  ]
  end-EndSends (some from_net) h = elim (Option-cases p.connection_type) [
    | inl missing ↦ ground (arith, missing)
    | inr (ct, c) ↦ elim (Option-cases p.forward_receiver_url) [
      | inl missing ↦ ground (arith, missing)
      | inr (url, u) ↦ record {
        operations = receiver_routing (routing_request certificate p qos ct url) ∷ [];
        sent = rw (c, u) refl;
        open_still = refl;
        queued = λ role. refl;
      }
    ]
  ]

module _ (sha256 : Sha256) (certificate : List ℕ) (p : RosTopicRequest) where
  routing-Sends :
      text_beq p.api_op (codes "add") ≡ false
      → text_beq p.api_op (codes "routing") ≡ true
      → is_some p.topic_qos && end_complete p (end_of p.ros_op) ≡ true
      → Sends sha256 certificate p
  unfolding dispatch
  routing-Sends e f h = elim (Option-cases p.topic_qos) [
    | inl missing ↦ cc (rw missing at h)
    | inr (qos, q) ↦
        let r = end-EndSends sha256 certificate p qos (end_of p.ros_op) (rw q at h) in
        record {
          operations = r.operations;
          sent =
              rw (e, f)
                (ap (λ o. unwrap o >>= λ x. on_end certificate all_open p x (end_of p.ros_op)) q
                  ∙ r.sent);
          open_still = r.open_still;
          queued = λ role. rw e (r.queued role);
        }
  ]

  -- A complete request is sent on.
  pub complete-Sends : IsComplete p → Sends sha256 certificate p
  complete-Sends h = elim (Bool-cases (text_beq p.api_op (codes "add"))) [
    | inl e ↦ add-Sends sha256 certificate p e
    | inr e ↦ elim (Bool-cases (text_beq p.api_op (codes "routing"))) [
      | inl f ↦ routing-Sends e f (rw f at h)
      | inr f ↦ other-Sends sha256 certificate p e f
    ]
  ]
