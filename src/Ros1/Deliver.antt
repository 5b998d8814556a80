-- ===== src/Ros1/Deliver.antt =====
-- What publishing leaves of the distributor, and what reaches ROS or the bag file.
use livox_mid360_rko_lio_ros.Base.{
  ℕ, ◌<◌, ◌≡◌, refl, sym, ap, ◌∙◌, inl, inr, Bool, true, false, not, ◌&&◌, Option, none, some, List,
  [], ◌∷◌, ◌++◌, map, if◌then◌else◌, length, length-set, Option-cases, set, get_elem?, get_elem?_lt,
  ok,
}
use mathlib.Core.List.{append_assoc, append-nil}
use livox_mid360_rko_lio_ros.Lds.{LidarDevice}
use livox_mid360_rko_lio_ros.Ros1.State.{Ros1Message, Topic, Topics, Sent, Written, Bag, Ros1Lddc}
use livox_mid360_rko_lio_ros.Ros1.Topics.{advertise, or_new, private_topic, current_topic}
use livox_mid360_rko_lio_ros.Lddc.Publishers.{lidar_topic, name_of}
use livox_mid360_rko_lio_ros.Ros1.Publish.{emit}

abbrev pub messages : List Sent → List Ros1Message
messages [] = []
messages (s ∷ ss) = s.message ∷ messages ss

-- The times and messages in a bag.
abbrev pub entries : List Written → List (ℕ × Ros1Message)
entries [] = []
entries (w ∷ ws) = (w.time, w.message) ∷ entries ws

abbrev pub recorded : Option Bag → List (ℕ × Ros1Message)
recorded none = []
recorded (some bag) = entries bag.written

abbrev pub has_bag : Option Bag → Bool
has_bag none = false
has_bag (some bag) = true

-- Messages go to the bag.
abbrev pub to_bag : Ros1Lddc → Bool
to_bag self = not self.output_to_ros && (has_bag self.bag && self.enable_lidar_bag)

-- The messages `out`, each with its time, go where they should.
pub record Delivers (out : List (ℕ × Ros1Message)) (self self' : Ros1Lddc) (sent : List Sent)
    : Type 0 where
  pub same_output : self'.output_to_ros ≡ self.output_to_ros
  pub same_enable : self'.enable_lidar_bag ≡ self.enable_lidar_bag
  pub same_frame : self'.frame_id ≡ self.frame_id
  pub same_format : self'.transfer_format ≡ self.transfer_format
  pub same_bag : has_bag self'.bag ≡ has_bag self.bag
  pub slots : length self'.topics.private_pub ≡ length self.topics.private_pub
  pub to_ros :
      messages sent ≡ (if self.output_to_ros then map (λ (m : ℕ × Ros1Message). m.1) out else [])
  pub in_bag : recorded self'.bag ≡ recorded self.bag ++ (if to_bag self then out else [])

entries-append : (xs ys : List Written) → entries (xs ++ ys) ≡ entries xs ++ entries ys
entries-append [] ys = refl
entries-append (x ∷ xs) ys = ap (◌∷◌ (x.time, x.message)) (entries-append xs ys)

messages-append : (xs ys : List Sent) → messages (xs ++ ys) ≡ messages xs ++ messages ys
messages-append [] ys = refl
messages-append (x ∷ xs) ys = ap (◌∷◌ x.message) (messages-append xs ys)

-- `emit`, by where the message goes.
pub emitted :
    (output enabled : Bool) (bag : Option Bag) (topic : Topic) (time : ℕ) (m : Ros1Message)
    (self : Ros1Lddc)
    → let self1 = record self { output_to_ros = output; enable_lidar_bag = enabled; bag = bag } in
      let (self', sent) = emit enabled topic time m self1 in
      Delivers ((time, m) ∷ []) self1 self' sent
unfolding emit
emitted true enabled bag topic time m self = record {
  same_output = refl;
  same_enable = refl;
  same_frame = refl;
  same_format = refl;
  same_bag = refl;
  slots = refl;
  to_ros = refl;
  in_bag = sym (append-nil (recorded bag));
}
emitted false enabled none topic time m self = record {
  same_output = refl;
  same_enable = refl;
  same_frame = refl;
  same_format = refl;
  same_bag = refl;
  slots = refl;
  to_ros = refl;
  in_bag = refl;
}
emitted false true (some bag) topic time m self = record {
  same_output = refl;
  same_enable = refl;
  same_frame = refl;
  same_format = refl;
  same_bag = refl;
  slots = refl;
  to_ros = refl;
  in_bag =
      entries-append bag.written
        (record { topic_name = topic.name; time = time; message = m } ∷ []);
}
emitted false false (some bag) topic time m self = record {
  same_output = refl;
  same_enable = refl;
  same_frame = refl;
  same_format = refl;
  same_bag = refl;
  slots = refl;
  to_ros = refl;
  in_bag = sym (append-nil (entries bag.written));
}

if_same {ℓ} : {A : Type ℓ} (b : Bool) (x : A) → x ≡ (if b then x else x)
if_same true x = refl
if_same false x = refl

pub Delivers-nil : (self : Ros1Lddc) → Delivers [] self self []
Delivers-nil self = record {
  same_output = refl;
  same_enable = refl;
  same_frame = refl;
  same_format = refl;
  same_bag = refl;
  slots = refl;
  to_ros = if_same self.output_to_ros [];
  in_bag =
      sym (append-nil (recorded self.bag))
      ∙ ap (◌++◌ (recorded self.bag)) (if_same (to_bag self) []);
}

map-append {ℓ κ} :
    {A : Type ℓ} {B : Type κ} (f : A → B) (xs ys : List A) → map f (xs ++ ys) ≡ map f xs ++ map f ys
map-append f [] ys = refl
map-append f (x ∷ xs) ys = ap (◌∷◌ (f x)) (map-append f xs ys)

-- Both where the test holds, and neither where it does not.
both {ℓ} :
    {A : Type ℓ} (b : Bool) (xs ys : List A)
    → (if b then xs else []) ++ (if b then ys else []) ≡ (if b then xs ++ ys else [])
both true xs ys = refl
both false xs ys = refl

module _ (out1 out2 : List (ℕ × Ros1Message)) (s0 s1 s2 : Ros1Lddc) (sent1 sent2 : List Sent)
    (d : Delivers out1 s0 s1 sent1) (e : Delivers out2 s1 s2 sent2) where
  same_to_bag : to_bag s1 ≡ to_bag s0
  same_to_bag = rw (d.same_output, d.same_bag, d.same_enable) refl

  to_ros_both :
      messages (sent1 ++ sent2)
      ≡ (if s0.output_to_ros then map (λ (m : ℕ × Ros1Message). m.1) (out1 ++ out2) else [])
  to_ros_both =
      let which = λ (m : ℕ × Ros1Message). m.1 in
      messages-append sent1 sent2
      ∙ ap (◌++◌ (messages sent1)) e.to_ros
      ∙ ap (λ l. l ++ (if s1.output_to_ros then map which out2 else [])) d.to_ros
      ∙ ap
          (λ b.
            (if s0.output_to_ros then map which out1 else []) ++ (if b then map which out2 else []))
          d.same_output
      ∙ both s0.output_to_ros (map which out1) (map which out2)
      ∙ ap (λ l. if s0.output_to_ros then l else []) (sym (map-append which out1 out2))

  in_bag_both : recorded s2.bag ≡ recorded s0.bag ++ (if to_bag s0 then out1 ++ out2 else [])
  in_bag_both =
      e.in_bag
      ∙ ap (λ l. l ++ (if to_bag s1 then out2 else [])) d.in_bag
      ∙ append_assoc (recorded s0.bag) (if to_bag s0 then out1 else [])
          (if to_bag s1 then out2 else [])
      ∙ ap (λ b. recorded s0.bag ++ ((if to_bag s0 then out1 else []) ++ (if b then out2 else [])))
          same_to_bag
      ∙ ap (◌++◌ (recorded s0.bag)) (both (to_bag s0) out1 out2)

  pub Delivers-append : Delivers (out1 ++ out2) s0 s2 (sent1 ++ sent2)
  Delivers-append = record {
    same_output = e.same_output ∙ d.same_output;
    same_enable = e.same_enable ∙ d.same_enable;
    same_frame = e.same_frame ∙ d.same_frame;
    same_format = e.same_format ∙ d.same_format;
    same_bag = e.same_bag ∙ d.same_bag;
    slots = e.slots ∙ d.slots;
    to_ros = to_ros_both;
    in_bag = in_bag_both;
  }

-- A publisher is found or made, and nothing but the publishers changes.
module _ (inet_ntoa : ℕ → List ℕ) (lidars : List LidarDevice) (index : ℕ) (lidar : LidarDevice)
    (at : get_elem? lidars index ≡ some lidar) where
  private_lem :
      (make : List ℕ → Topic) (name : List ℕ) (slots : List (Option Topic))
      → index < length slots
      → (p : Topic) × (slots' : List (Option Topic)) × (private_topic inet_ntoa make name lidars
            index slots
          ≡ ok (p, slots'))
        × (length slots' ≡ length slots)
  unfolding private_topic
  private_lem make name slots inside =
      let (slot, there) = get_elem?_lt slots index inside in
      elim (Option-cases slot) [
        | inl empty ↦
            let made = make (name_of inet_ntoa name lidar.handle) in
            (
              made,
              set slots index (some made),
              rw (there, empty, at) refl,
              length-set slots index (some made),
            )
        | inr (p, full) ↦ (p, slots, rw (there, full) refl, refl)
      ]

  pub current_lem :
      (multi : Bool) (self : Ros1Lddc)
      → self.use_multi_topic ≡ multi
      → index < length self.topics.private_pub
      → (p : Topic) × (ts : Topics) × (current_topic inet_ntoa lidars index self
          ≡ ok (p, record self { topics = ts }))
        × (length ts.private_pub ≡ length self.topics.private_pub)
  unfolding current_topic
  current_lem true self which inside =
      let (p, slots, found, kept) =
        private_lem (λ name. advertise self.transfer_format name 4) lidar_topic
          self.topics.private_pub inside in
      (p, record (self.topics) { private_pub = slots }, simp (which, found), kept)
  current_lem false self which inside =
      let p = or_new self.topics.global_pub (advertise self.transfer_format lidar_topic 256) in
      (p, record (self.topics) { global_pub = some p }, simp which, refl)
