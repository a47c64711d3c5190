-- ===== src/Service/Words.antt =====
-- The words of `main_service_manager` of fogrs-core/src/service_manager.rs for the four handlers.
use rt_fogros.Prelude.{
  ◌≡◌, refl, Text, codes, text_beq, text_beq_iff, Bool, true, false, Bool-cases, inl, inr, Option,
  none, some,
}
use rt_fogros.Ros.Manager.{Role, publisher, subscriber, client, service}
use rt_fogros.Service.Manager.{role_of}

-- The word for a role.
abbrev pub word : Role → Text
word publisher = codes "pub"
word subscriber = codes "sub"
word client = codes "client"
word service = codes "service"

abbrev pub same_role : Role → Role → Bool
same_role publisher publisher = true
same_role subscriber subscriber = true
same_role client client = true
same_role service service = true
same_role _ _ = false

abbrev pub role_is : Option Role → Role → Bool
role_is none role = false
role_is (some r) role = same_role r role

words_apart : (q r : Role) → text_beq (word q) (word r) ≡ same_role q r
unfolding text_beq
words_apart publisher publisher = refl
words_apart publisher subscriber = refl
words_apart publisher client = refl
words_apart publisher service = refl
words_apart subscriber publisher = refl
words_apart subscriber subscriber = refl
words_apart subscriber client = refl
words_apart subscriber service = refl
words_apart client publisher = refl
words_apart client subscriber = refl
words_apart client client = refl
words_apart client service = refl
words_apart service publisher = refl
words_apart service subscriber = refl
words_apart service client = refl
words_apart service service = refl

role_of-word : (r : Role) → role_of (word r) ≡ some r
unfolding role_of text_beq
role_of-word publisher = refl
role_of-word subscriber = refl
role_of-word client = refl
role_of-word service = refl

at_word :
    (s : Text) (q : Role)
    → text_beq s (word q) ≡ true
    → (r : Role) → text_beq s (word r) ≡ role_is (role_of s) r
at_word s q e r = rw ((text_beq_iff s (word q)).0 e, role_of-word q) (words_apart q r)

nowhere :
    (s : Text)
    → text_beq s (word client) ≡ false
    → text_beq s (word service) ≡ false
    → text_beq s (word publisher) ≡ false
    → text_beq s (word subscriber) ≡ false
    → (r : Role) → text_beq s (word r) ≡ role_is (role_of s) r
unfolding role_of
nowhere s a b c d publisher = rw (a, b, c, d) refl
nowhere s a b c d subscriber = rw (a, b, c, d) refl
nowhere s a b c d client = rw (a, b, c, d) refl
nowhere s a b c d service = rw (a, b, c, d) refl

-- The chain of tests finds the role of a word.
pub role_of_lem : (s : Text) (r : Role) → text_beq s (word r) ≡ role_is (role_of s) r
role_of_lem s r = elim (Bool-cases (text_beq s (word client))) [
  | inl e ↦ at_word s client e r
  | inr a ↦ elim (Bool-cases (text_beq s (word service))) [
    | inl e ↦ at_word s service e r
    | inr b ↦ elim (Bool-cases (text_beq s (word publisher))) [
      | inl e ↦ at_word s publisher e r
      | inr c ↦ elim (Bool-cases (text_beq s (word subscriber))) [
        | inl e ↦ at_word s subscriber e r
        | inr d ↦ nowhere s a b c d r
      ]
    ]
  ]
]
