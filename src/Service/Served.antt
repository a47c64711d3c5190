-- ===== src/Service/Served.antt =====
-- The loop of `main_service_manager` of fogrs-core/src/service_manager.rs over a list of requests.
use rt_fogros.Prelude.{ℕ, ◌≡◌, refl, ◌∙◌, true, Bool-cases, inl, inr, List, [], ◌∷◌, ◌++◌, All}
use rt_fogros.Packet.Construct.{Sha256}
use rt_fogros.Ros.Manager.{Role}
use rt_fogros.Service.Request.{RosTopicRequest}
use rt_fogros.Service.Manager.{
  Operation, topic, sender_routing, receiver_routing, Managed, main_service_manager,
}
use rt_fogros.Service.Words.{same_role}
use rt_fogros.Service.Queues.{queue, adds, wanted, IsComplete, all_open, Sends, complete-Sends}

queue-append :
    (role : Role) (os qs : List Operation) → queue role (os ++ qs) ≡ queue role os ++ queue role qs
queue-append role [] qs = refl
queue-append role (topic r request ∷ os) qs = elim (Bool-cases (same_role r role)) [
  | inl e ↦ rw (e, queue-append role os qs) refl
  | inr e ↦ rw (e, queue-append role os qs) refl
]
queue-append role (sender_routing request ∷ os) qs = queue-append role os qs
queue-append role (receiver_routing request ∷ os) qs = queue-append role os qs

module _ (sha256 : Sha256) (certificate : List ℕ) where
  abbrev pub served : List RosTopicRequest → Managed
  served = main_service_manager sha256 certificate all_open

  pub served-Sends :
      (p : RosTopicRequest) (ps : List RosTopicRequest) (s : Sends sha256 certificate p)
      → served (p ∷ ps) ≡ record (served ps) { operations = s.operations ++ (served ps).operations }
  unfolding main_service_manager
  served-Sends p ps s = rw (s.sent, s.open_still) refl

  -- The manager goes on through any complete requests, and each of the four ROS handlers gets exactly
  -- the requests that add with its word, in order, under the manager's certificate.
  pub served-wanted :
      (ps : List RosTopicRequest) (role : Role)
      → All IsComplete ps
      → ((served ps).alive ≡ true)
        × (queue role (served ps).operations ≡ wanted certificate role ps)
  unfolding main_service_manager
  served-wanted [] role h = (refl, refl)
  served-wanted (p ∷ ps) role h =
      let s = complete-Sends sha256 certificate p h.0 in
      let (on, rest) = served-wanted ps role h.1 in
      rw (served-Sends p ps s) (
        on,
        queue-append role s.operations (served ps).operations ∙ elim (Bool-cases (adds role p)) [
          | inl e ↦ rw (s.queued role, rest, e) refl
          | inr e ↦ rw (s.queued role, rest, e) refl
        ],
      )
