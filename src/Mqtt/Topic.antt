-- ===== src/Mqtt/Topic.antt =====
-- The topics of `MqttService` in src/signaling/mqtt_service.cpp, made and taken apart.
use pi_webrtc.Prelude.{
  ℕ, zero, suc, ◌+◌, ◌≡◌, ◌≢◌, refl, sym, ap, subst, ◌∙◌, Bool, true, false, not, ◌||◌, [], ◌∷◌,
  ◌++◌, append_assoc, Bytes, length, length-append, drop, is_empty, All, leb, eqb, eqb_iff,
  if◌then◌else◌, codes, starts_with, arith,
}

pub data TopicType : Type 0 where
  offer answer ice unknown : TopicType

unfoldable pub topic_type_to_string : TopicType → Bytes
topic_type_to_string offer = codes "offer"
topic_type_to_string answer = codes "answer"
topic_type_to_string ice = codes "ice"
topic_type_to_string unknown = codes "unknown"

abbrev pub at_is_slash : ℕ → Bytes → Bool
at_is_slash n [] = false
at_is_slash zero (b ∷ bs) = eqb b b'/'
at_is_slash (suc n) (b ∷ bs) = at_is_slash n bs

-- Up to the next slash, or to the end.
abbrev pub until_slash : Bytes → Bytes
until_slash [] = []
until_slash (b ∷ bs) = if eqb b b'/' then [] else b ∷ until_slash bs

abbrev pub is_unknown : TopicType → Bool
is_unknown unknown = true
is_unknown _ = false

module _ (uid : Bytes) where
  unfoldable pub get_topic : TopicType → Bytes → Bytes
  get_topic t client_id =
      if is_empty client_id
      then uid ++ (codes "/" ++ topic_type_to_string t)
      else uid ++ (codes "/" ++ (topic_type_to_string t ++ (codes "/" ++ client_id)))

  unfoldable pub find_topic_type : Bytes → TopicType
  unfolding get_topic topic_type_to_string
  find_topic_type topic =
      if starts_with topic (get_topic offer [] ++ codes "/")
      then offer
      else if starts_with topic (get_topic answer [] ++ codes "/")
      then answer
      else if starts_with topic (get_topic ice [] ++ codes "/")
      then ice
      else unknown

  -- `FindClientId` behind its call of `FindTopicType`.
  unfoldable pub find_client_id_in : TopicType → Bytes → Bytes
  unfolding get_topic
  find_client_id_in t topic =
      let base_topic = get_topic t [] in
      let start_pos = length base_topic + 1 in
      if is_unknown t
      then []
      else if leb (length topic) (length base_topic) || not (at_is_slash (length base_topic) topic)
      then []
      else if leb (length topic) start_pos
      then []
      else until_slash (drop start_pos topic)

  unfoldable pub find_client_id : Bytes → Bytes
  unfolding find_topic_type find_client_id_in
  find_client_id topic = find_client_id_in (find_topic_type topic) topic

starts_with-append : (a s t : Bytes) → starts_with (a ++ s) (a ++ t) ≡ starts_with s t
starts_with-append [] s t = refl
starts_with-append (x ∷ a) s t = rw ((eqb_iff x x).1 refl) (starts_with-append a s t)

-- The type of the topic decides how it goes on.
typed :
    (uid c : Bytes) (t u : TopicType)
    → c ≢ []
    → starts_with (get_topic uid t c) (get_topic uid u [] ++ codes "/")
      ≡ starts_with
          (topic_type_to_string t ++ (codes "/" ++ c))
          (topic_type_to_string u ++ codes "/")
unfolding get_topic
typed uid [] t u h = absurd (h refl)
typed uid (b ∷ c) t u h =
    ap (starts_with (uid ++ (codes "/" ++ (topic_type_to_string t ++ (codes "/" ++ (b ∷ c))))))
      (append_assoc uid (codes "/" ++ topic_type_to_string u) (codes "/"))
    ∙ starts_with-append uid _ _

find_topic_type-get_topic :
    (uid c : Bytes) (t : TopicType) → c ≢ [] → find_topic_type uid (get_topic uid t c) ≡ t
unfolding find_topic_type topic_type_to_string
find_topic_type-get_topic uid c offer h = rw (typed uid c offer offer h) refl
find_topic_type-get_topic uid c answer h =
    rw (typed uid c answer offer h, typed uid c answer answer h) refl
find_topic_type-get_topic uid c ice h =
    rw (typed uid c ice offer h, typed uid c ice answer h, typed uid c ice ice h) refl
find_topic_type-get_topic uid c unknown h =
    rw (typed uid c unknown offer h, typed uid c unknown answer h, typed uid c unknown ice h) refl

at_is_slash-append : (s t : Bytes) → at_is_slash (length s) (s ++ b'/' ∷ t) ≡ true
at_is_slash-append [] t = refl
at_is_slash-append (b ∷ s) t = at_is_slash-append s t

drop-length : (s t : Bytes) (b : ℕ) → drop (length s + 1) (s ++ b ∷ t) ≡ t
drop-length [] t b = refl
drop-length (a ∷ s) t b =
    let e : suc (length s) + 1 ≡ suc (length s + 1) = omega arith in rw e (drop-length s t b)

-- No slash is in the text.
abbrev pub Slashless : Bytes → Type 0
Slashless bs = All (λ b. eqb b b'/' ≡ false) bs

until_slash-Slashless : (bs : Bytes) → Slashless bs → until_slash bs ≡ bs
until_slash-Slashless [] h = refl
until_slash-Slashless (b ∷ bs) h = rw h.0 (ap (◌∷◌ b) (until_slash-Slashless bs h.1))

get_topic-append :
    (uid c : Bytes) (t : TopicType) → c ≢ [] → get_topic uid t c ≡ get_topic uid t [] ++ b'/' ∷ c
unfolding get_topic
get_topic-append uid [] t h = absurd (h refl)
get_topic-append uid (b ∷ c) t h =
    sym (append_assoc uid (codes "/" ++ topic_type_to_string t) (b'/' ∷ b ∷ c))

-- What the tests of `FindClientId` leave of a topic.
abbrev taken : Bytes → Bytes → Bytes
taken base topic =
    if leb (length topic) (length base) || not (at_is_slash (length base) topic)
    then []
    else if leb (length topic) (length base + 1)
    then []
    else until_slash (drop (length base + 1) topic)

taken_apart : (base c : Bytes) → c ≢ [] → Slashless c → taken base (base ++ b'/' ∷ c) ≡ c
taken_apart base [] h k = absurd (h refl)
taken_apart base (b ∷ c) h k =
    let l = length-append base (b'/' ∷ b ∷ c) in
    let p : leb (length (base ++ b'/' ∷ b ∷ c)) (length base) ≡ false = ground (arith, l) in
    let q : leb (length (base ++ b'/' ∷ b ∷ c)) (length base + 1) ≡ false = ground (arith, l) in
    rw (p, q, at_is_slash-append base (b ∷ c), drop-length base (b ∷ c) b'/')
      (until_slash-Slashless (b ∷ c) k)

known_type :
    (t : TopicType) (x c : Bytes) → t ≢ unknown → x ≡ c → (if is_unknown t then [] else x) ≡ c
known_type offer x c n e = e
known_type answer x c n e = e
known_type ice x c n e = e
known_type unknown x c n e = absurd (n refl)

-- A topic that is made for a client whose id is not empty and has no slash gives back its type and the id,
-- whatever the service's own id is.
pub find_client_id-get_topic :
    (uid c : Bytes) (t : TopicType)
    → c ≢ []
    → Slashless c
    → t ≢ unknown
    → (find_topic_type uid (get_topic uid t c) ≡ t) × (find_client_id uid (get_topic uid t c) ≡ c)
unfolding find_client_id find_client_id_in
find_client_id-get_topic uid c t h k known =
    let e = find_topic_type-get_topic uid c t h in
    (
      e,
      ap (λ u. find_client_id_in uid u (get_topic uid t c)) e
          ∙ known_type t _ c known (
              subst (λ topic. taken (get_topic uid t []) topic ≡ c)
                (sym (get_topic-append uid c t h)) (taken_apart (get_topic uid t []) c h k)),
    )
