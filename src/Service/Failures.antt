-- ===== src/Service/Failures.antt =====
-- The requests that end `main_service_manager` of fogrs-core/src/service_manager.rs.
use rt_fogros.Prelude.{
  ℕ, ◌≡◌, refl, sym, ap, ◌∙◌, Text, codes, text_beq, true, false, inl, inr, ◌⊎◌, none, some, List,
  [], ◌∷◌, ◌++◌, append-nil, append_assoc, All, if◌then◌else◌, Outcome, done, panic, ◌>>=◌, unwrap,
}
use rt_fogros.Packet.Construct.{Sha256}
use rt_fogros.Routing.Direction.{direction_str_to_connection_type}
use rt_fogros.Routing.Manager.{route_to}
use rt_fogros.Service.Request.{RosTopicRequest}
use rt_fogros.Service.Manager.{
  on_add, role_of, Operation, sender_routing, End, to_net, end_of, url_of, on_end, routing_request,
  Routers, dispatch, after_operations, main_service_manager,
}
use rt_fogros.Service.Queues.{IsComplete, all_open, complete-Sends}
use rt_fogros.Service.Served.{served, served-Sends}

-- A request for routing, with the end that it names.
abbrev pub Routes : RosTopicRequest → End → Type 0
Routes p e = (p.api_op ≡ codes "routing") × (end_of p.ros_op ≡ some e)

-- A field that the manager unwraps is missing.
abbrev pub IsMissing : RosTopicRequest → Type 0
IsMissing p =
    ((p.api_op ≡ codes "routing") × (p.topic_qos ≡ none))
    ⊎ ((e : End) × Routes p e × ((p.connection_type ≡ none) ⊎ (url_of p e ≡ none)))

routing_is_not_add : text_beq (codes "routing") (codes "add") ≡ false
unfolding text_beq
routing_is_not_add = refl

routing_is_routing : text_beq (codes "routing") (codes "routing") ≡ true
unfolding text_beq
routing_is_routing = refl

dispatch-routing :
    (certificate : List ℕ) (routers : Routers) (p : RosTopicRequest)
    → p.api_op ≡ codes "routing"
    → dispatch certificate routers p
      ≡ (unwrap p.topic_qos >>= λ qos. on_end certificate routers p qos (end_of p.ros_op))
unfolding dispatch
dispatch-routing certificate routers p e =
    ap
      (λ op.
        if text_beq op (codes "add")
        then done (on_add certificate p (role_of p.ros_op))
        else if text_beq op (codes "routing")
        then (unwrap p.topic_qos >>= λ qos. on_end certificate routers p qos (end_of p.ros_op))
        else done [])
      e
    ∙ rw (routing_is_not_add, routing_is_routing) refl

-- A bind whose rest panics, panics.
bind-panic :
    {A B : Type 0} (m : Outcome A) (f : A → Outcome B) → ((a : A) → f a ≡ panic) → (m >>= f) ≡ panic
bind-panic (done a) f h = h a
bind-panic panic f h = refl

on_end-missing :
    (certificate : List ℕ) (p : RosTopicRequest) (qos : Text) (e : End)
    → (p.connection_type ≡ none) ⊎ (url_of p e ≡ none)
    → on_end certificate all_open p qos (some e) ≡ panic
on_end-missing certificate p qos e (inl c) = rw c refl
on_end-missing certificate p qos e (inr u) =
    bind-panic (unwrap p.connection_type) _ (λ ct. rw u refl)

dispatch-missing :
    (certificate : List ℕ) (p : RosTopicRequest)
    → IsMissing p
    → dispatch certificate all_open p ≡ panic
dispatch-missing certificate p (inl (e, q)) =
    dispatch-routing certificate all_open p e
    ∙ ap (λ o. unwrap o >>= λ qos. on_end certificate all_open p qos (end_of p.ros_op)) q
dispatch-missing certificate p (inr (e, (r, end), m)) =
    dispatch-routing certificate all_open p r
    ∙ bind-panic (unwrap p.topic_qos) _
        (λ qos. ap (on_end certificate all_open p qos) end ∙ on_end-missing certificate p qos e m)

module _ (sha256 : Sha256) (certificate : List ℕ) where
  -- What comes before the end is served.
  served-before :
      (ps rest : List RosTopicRequest) (os : List Operation)
      → All IsComplete ps
      → (served sha256 certificate rest).operations ≡ os
      → (served sha256 certificate rest).alive ≡ false
      → ((served sha256 certificate (ps ++ rest)).operations
          ≡ (served sha256 certificate ps).operations ++ os)
        × ((served sha256 certificate (ps ++ rest)).alive ≡ false)
  unfolding main_service_manager
  served-before [] rest os h e f = (e, f)
  served-before (p ∷ ps) rest os h e f =
      let s = complete-Sends sha256 certificate p h.0 in
      let (sent, gone) = served-before ps rest os h.1 e f in
      rw (served-Sends sha256 certificate p (ps ++ rest) s, served-Sends sha256 certificate p ps s)
        (
          ap (◌++◌ s.operations) sent
              ∙ sym (append_assoc s.operations (served sha256 certificate ps).operations os),
          gone,
        )

  -- A request for routing without its quality of service, its connection type or the address of its
  -- end ends the manager: what came before has been served, and no later request is, whatever it asks.
  pub missing_ends_manager :
      (ps qs : List RosTopicRequest) (p : RosTopicRequest)
      → All IsComplete ps
      → IsMissing p
      → ((served sha256 certificate (ps ++ p ∷ qs)).operations
          ≡ (served sha256 certificate ps).operations)
        × ((served sha256 certificate (ps ++ p ∷ qs)).alive ≡ false)
  unfolding main_service_manager
  missing_ends_manager ps qs p h m =
      let (sent, gone) =
        served-before ps (p ∷ qs) [] h (rw (dispatch-missing certificate p m) refl)
          (rw (dispatch-missing certificate p m) refl) in
      (sent ∙ append-nil (served sha256 certificate ps).operations, gone)

  -- Complete but for its direction, which is none of the six.
  pub record IsUnreadable (p : RosTopicRequest) : Type 0 where
    pub routes : Routes p to_net
    pub qos : Text
    pub has_qos : p.topic_qos ≡ some qos
    pub connection_type : Text
    pub has_type : p.connection_type ≡ some connection_type
    pub url : Text
    pub has_url : p.forward_sender_url ≡ some url
    pub unreadable : direction_str_to_connection_type (connection_type ++ codes "-sender") ≡ panic

  abbrev shut : Routers
  shut = record { sender_open = false; receiver_open = true }

  dispatch-shut : (q : RosTopicRequest) → Routes q to_net → dispatch certificate shut q ≡ panic
  dispatch-shut q (r, end) =
      dispatch-routing certificate shut q r
      ∙ bind-panic (unwrap q.topic_qos) _ (λ qos.
        ap (on_end certificate shut q qos) end
        ∙ bind-panic (unwrap q.connection_type) _
            (λ ct. bind-panic (unwrap q.forward_sender_url) _ (λ url. refl)))

  dispatch-unreadable :
      (p : RosTopicRequest) (u : IsUnreadable p)
      → dispatch certificate all_open p
        ≡ done (sender_routing (routing_request certificate p u.qos u.connection_type u.url) ∷ [])
  dispatch-unreadable p u =
      dispatch-routing certificate all_open p u.routes.0
      ∙ ap (λ o. unwrap o >>= λ qos. on_end certificate all_open p qos (end_of p.ros_op)) u.has_qos
      ∙ ap (on_end certificate all_open p u.qos) u.routes.1
      ∙ ap
          (λ o. unwrap o >>= λ ct. unwrap p.forward_sender_url >>= λ url.
            done (sender_routing (routing_request certificate p u.qos ct url) ∷ []))
          u.has_type
      ∙ ap
          (λ o. unwrap o >>= λ url.
            done (sender_routing (routing_request certificate p u.qos u.connection_type url) ∷ []))
          u.has_url

  shuts :
      (p : RosTopicRequest) (u : IsUnreadable p)
      → after_operations sha256 all_open
          (sender_routing (routing_request certificate p u.qos u.connection_type u.url) ∷ [])
        ≡ shut
  unfolding route_to
  shuts p u = rw u.unreadable refl

  -- A request that sends to the net with a connection type that reads as none of the three in upper
  -- case ends the handler of its direction, and the next request that sends to the net, if that handler has taken the first
  -- by then, ends the manager with it, however well formed: no request after that is served.
  pub unreadable_ends_manager :
      (ps qs : List RosTopicRequest) (p q : RosTopicRequest)
      → All IsComplete ps
      → (u : IsUnreadable p) → Routes q to_net
      → ((served sha256 certificate (ps ++ p ∷ q ∷ qs)).operations
          ≡ (served sha256 certificate ps).operations
            ++ sender_routing (routing_request certificate p u.qos u.connection_type u.url) ∷ [])
        × ((served sha256 certificate (ps ++ p ∷ q ∷ qs)).alive ≡ false)
  unfolding main_service_manager
  unreadable_ends_manager ps qs p q h u r =
      served-before ps (p ∷ q ∷ qs) _ h
        (rw (dispatch-unreadable p u, shuts p u, dispatch-shut q r) refl)
        (rw (dispatch-unreadable p u, shuts p u, dispatch-shut q r) refl)
