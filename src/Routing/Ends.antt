-- ===== src/Routing/Ends.antt =====
-- The two ends of a direction: what stands before `-sender` or `-receiver`.
use rt_fogros.Prelude.{
  ◌-◌, ◌≡◌, ◌≢◌, refl, sym, ap, ◌∙◌, Text, codes, text_beq, text_beq_iff, true, false, ◌++◌, length,
  take, length-append, take_append, done, arith,
}
use rt_fogros.Fib.Types.{
  FibConnectionType, sender, receiver, request_sender, request_receiver, response_sender,
  response_receiver,
}
use rt_fogros.Fib.Update.{is_receiver}
use rt_fogros.Routing.Direction.{to_uppercase, direction_str_to_connection_type}
use rt_fogros.Routing.Case.{to_uppercase-append}
use rt_fogros.Routing.Duality.{dual, direction_of, upper-of_type}

-- The front part of a text, from the whole and the length of the rest.
front : (ct rest d : Text) → d ≡ ct ++ rest → take (length d - length rest) d ≡ ct
front ct rest d e =
    let n : length d - length rest ≡ length ct =
      omega (arith, ap length e, length-append ct rest) in
    ap (λ k. take k d) n ∙ ap (take (length ct)) e ∙ take_append ct rest

distinct : (s t : Text) → text_beq s t ≡ false → s ≢ t
distinct s t h e = differ (sym ((text_beq_iff s t).1 e) ∙ h)
  where
    differ : true ≢ false
    differ d = cc

-- The whole is made of the front part and the rest.
refront : (ct rest d : Text) → d ≡ ct ++ rest → d ≡ take (length d - length rest) d ++ rest
refront ct rest d e = e ∙ ap (λ x. x ++ rest) (sym (front ct rest d e))

pub sender_direction :
    (ct : Text) (k : FibConnectionType)
    → direction_of k ≡ ct ++ codes "-sender"
    → direction_of (dual k) ≡ ct ++ codes "-receiver"
unfolding text_beq
sender_direction ct sender e = ap (λ x. x ++ codes "-receiver") (front ct (codes "-sender") _ e)
sender_direction ct request_sender e =
    ap (λ x. x ++ codes "-receiver") (front ct (codes "-sender") _ e)
sender_direction ct response_sender e =
    ap (λ x. x ++ codes "-receiver") (front ct (codes "-sender") _ e)
sender_direction ct receiver e = absurd (distinct _ _ refl (refront ct (codes "-sender") _ e))
sender_direction ct request_receiver e =
    absurd (distinct _ _ refl (refront ct (codes "-sender") _ e))
sender_direction ct response_receiver e =
    absurd (distinct _ _ refl (refront ct (codes "-sender") _ e))

pub receiver_direction :
    (ct : Text) (k : FibConnectionType)
    → direction_of k ≡ ct ++ codes "-receiver"
    → direction_of (dual k) ≡ ct ++ codes "-sender"
unfolding text_beq
receiver_direction ct receiver e = ap (λ x. x ++ codes "-sender") (front ct (codes "-receiver") _ e)
receiver_direction ct request_receiver e =
    ap (λ x. x ++ codes "-sender") (front ct (codes "-receiver") _ e)
receiver_direction ct response_receiver e =
    ap (λ x. x ++ codes "-sender") (front ct (codes "-receiver") _ e)
receiver_direction ct sender e = absurd (distinct _ _ refl (refront ct (codes "-receiver") _ e))
receiver_direction ct request_sender e =
    absurd (distinct _ _ refl (refront ct (codes "-receiver") _ e))
receiver_direction ct response_sender e =
    absurd (distinct _ _ refl (refront ct (codes "-receiver") _ e))

-- The other end of a direction that ends in `-sender` is a receiving connection.
sender_kind :
    (ct : Text) (k : FibConnectionType)
    → to_uppercase (direction_of k) ≡ ct ++ codes "-SENDER"
    → is_receiver (dual k) ≡ true
unfolding text_beq
sender_kind ct sender e = refl
sender_kind ct request_sender e = refl
sender_kind ct response_sender e = refl
sender_kind ct receiver e = absurd (distinct _ _ refl (refront ct (codes "-SENDER") _ e))
sender_kind ct request_receiver e = absurd (distinct _ _ refl (refront ct (codes "-SENDER") _ e))
sender_kind ct response_receiver e = absurd (distinct _ _ refl (refront ct (codes "-SENDER") _ e))

receiver_kind :
    (ct : Text) (k : FibConnectionType)
    → to_uppercase (direction_of k) ≡ ct ++ codes "-RECEIVER"
    → is_receiver (dual k) ≡ false
unfolding text_beq
receiver_kind ct receiver e = refl
receiver_kind ct request_receiver e = refl
receiver_kind ct response_receiver e = refl
receiver_kind ct sender e = absurd (distinct _ _ refl (refront ct (codes "-RECEIVER") _ e))
receiver_kind ct request_sender e = absurd (distinct _ _ refl (refront ct (codes "-RECEIVER") _ e))
receiver_kind ct response_sender e = absurd (distinct _ _ refl (refront ct (codes "-RECEIVER") _ e))

-- The upper case of a direction of the type ends as the direction does.
uppered :
    (ct rest : Text) (k : FibConnectionType)
    → direction_str_to_connection_type (ct ++ rest) ≡ done k
    → to_uppercase (direction_of k) ≡ to_uppercase ct ++ to_uppercase rest
uppered ct rest k h = sym (upper-of_type (ct ++ rest) k h) ∙ to_uppercase-append ct rest

pub of_sender :
    (ct : Text) (k : FibConnectionType)
    → direction_str_to_connection_type (ct ++ codes "-sender") ≡ done k
    → is_receiver (dual k) ≡ true
of_sender ct k h = sender_kind (to_uppercase ct) k (uppered ct (codes "-sender") k h)

pub of_receiver :
    (ct : Text) (k : FibConnectionType)
    → direction_str_to_connection_type (ct ++ codes "-receiver") ≡ done k
    → is_receiver (dual k) ≡ false
of_receiver ct k h = receiver_kind (to_uppercase ct) k (uppered ct (codes "-receiver") k h)
