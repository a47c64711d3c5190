-- ===== src/Routing/Rendezvous.antt =====
-- The topics that the two sides of fogrs-core/src/routing_manager.rs use at the signaling server.
use rt_fogros.Prelude.{
  ◌≡◌, ◌≢◌, ◌⊎◌, refl, sym, ap, ◌∙◌, Text, codes, inl, inr, ltb, true, All-append, some, ◌++◌,
  Outcome, done, panic, >>=-eq-done, arith,
}
use mathlib.Core.Path.{ap₂}
use mathlib.Core.List.{map-append}
use rt_fogros.Fib.Types.{FibConnectionType}
use rt_fogros.Packet.Construct.{Sha256, get_gdp_name_from_topic}
use rt_fogros.Routing.Direction.{
  lower, to_lowercase, direction_str_to_connection_type, flip_direction,
}
use rt_fogros.Routing.Case.{IsAscii}
use rt_fogros.Routing.Duality.{dual, direction_of, flip_direction_lem, lower-of_type}
use rt_fogros.Routing.Ends.{sender_direction, receiver_direction}
use rt_fogros.Routing.Manager.{
  Route, RoutingManagerRequest, route_to, handle_sender_routing, handle_receiver_routing,
  subscribe_topic, publish_topic,
}

-- The type of a direction flips to the other end's, in lower case, or the text is not ASCII and panics.
pub flip-of_type :
    (d : Text) (k : FibConnectionType)
    → direction_str_to_connection_type d ≡ done k
    → (flip_direction d ≡ done (direction_of (dual k))) ⊎ ((flip_direction d ≡ panic) × ¬ IsAscii d)
flip-of_type d k h = elim (flip_direction_lem d) [
  | inl (k', e, f, g) ↦ inl (f ∙ ap (λ x. done (direction_of (dual x))) (done_eq (sym e ∙ h)))
  | inr (f, inl p) ↦ absurd (apart (sym h ∙ p))
  | inr (f, inr (k', e, n)) ↦ inr (f, n)
]
  where
    apart : ◌≢◌ {A = Outcome FibConnectionType} (done k) panic
    apart e = cc

    done_eq : {a b : FibConnectionType} → done a ≡ done b → a ≡ b
    done_eq e = cc

flip-ascii :
    (d : Text) (k : FibConnectionType)
    → IsAscii d
    → direction_str_to_connection_type d ≡ done k
    → flip_direction d ≡ done (direction_of (dual k))
flip-ascii d k ascii h = elim (flip-of_type d k h) [ inl f ↦ f | inr (f, n) ↦ absurd (n ascii) ]

flip-lower :
    (ct rest other : Text) (k : FibConnectionType)
    → direction_str_to_connection_type (ct ++ rest) ≡ done k
    → IsAscii ct
    → IsAscii rest
    → to_lowercase ct ≡ ct
    → to_lowercase rest ≡ rest
    → ((k : FibConnectionType) → direction_of k ≡ ct ++ rest → direction_of (dual k) ≡ ct ++ other)
    → flip_direction (ct ++ rest) ≡ done (ct ++ other)
flip-lower ct rest other k h ascii_ct ascii_rest low_ct low_rest turn =
    let ascii = All-append (λ c. ltb c 128 ≡ true) ct rest ascii_ct ascii_rest in
    let low : to_lowercase (ct ++ rest) ≡ ct ++ rest =
      map-append lower ct rest ∙ ap₂ (◌++◌) low_ct low_rest in
    flip-ascii (ct ++ rest) k ascii h
    ∙ ap done (turn k (sym (lower-of_type (ct ++ rest) k ascii h) ∙ low))

sender_IsAscii : IsAscii (codes "-sender")
sender_IsAscii = (refl, (refl, (refl, (refl, (refl, (refl, (refl, tt)))))))

receiver_IsAscii : IsAscii (codes "-receiver")
receiver_IsAscii = (refl, (refl, (refl, (refl, (refl, (refl, (refl, (refl, (refl, tt)))))))))

route_to-done :
    (suffix : Text) (sha256 : Sha256) (r : RoutingManagerRequest) (route : Route) (ct : Text)
    → r.connection_type ≡ some ct
    → route_to suffix sha256 r ≡ done route
    → (k : FibConnectionType) × (direction_str_to_connection_type (ct ++ suffix) ≡ done k)
      × (route.direction ≡ ct ++ suffix)
      × (route.topic_gdp_name
          ≡ get_gdp_name_from_topic sha256 r.topic_name r.topic_type r.certificate)
unfolding route_to
route_to-done suffix sha256 r route ct c e =
    let (k, is_kind, built) =
      >>=-eq-done (direction_str_to_connection_type (ct ++ suffix)) _ (rw c at e) in
    (k, is_kind, ground (arith, built), ground (arith, built))

-- The routes that the two sides make of requests for one topic and one connection type in lower-case
-- ASCII meet at the signaling server: each side subscribes to the topic that the other publishes to.
pub routes_meet :
    (sha256 : Sha256) (q r : RoutingManagerRequest) (s t : Route) (ct : Text)
    → q.connection_type ≡ some ct
    → r.connection_type ≡ some ct
    → IsAscii ct
    → to_lowercase ct ≡ ct
    → q.topic_name ≡ r.topic_name
    → q.topic_type ≡ r.topic_type
    → q.certificate ≡ r.certificate
    → handle_sender_routing sha256 q ≡ done s
    → handle_receiver_routing sha256 r ≡ done t
    → (subscribe_topic s ≡ done (publish_topic t)) × (subscribe_topic t ≡ done (publish_topic s))
unfolding subscribe_topic publish_topic
routes_meet sha256 q r s t ct cq cr ascii low n ty c es et =
    let (k, ks, ds, ns) = route_to-done (codes "-sender") sha256 q s ct cq es in
    let (l, kt, dt, nt) = route_to-done (codes "-receiver") sha256 r t ct cr et in
    let to_receiver =
      flip-lower ct (codes "-sender") (codes "-receiver") k ks ascii sender_IsAscii low refl
        (λ x e. sender_direction ct x e) in
    let to_sender =
      flip-lower ct (codes "-receiver") (codes "-sender") l kt ascii receiver_IsAscii low refl
        (λ x e. receiver_direction ct x e) in
    (rw (ds, ns, dt, nt, to_receiver, n, ty, c), rw (ds, ns, dt, nt, to_sender, n, ty, c))
