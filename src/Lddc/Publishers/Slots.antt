-- ===== src/Lddc/Publishers/Slots.antt =====
-- A place for a publisher is filled once, with the publisher that it should have.
use livox_mid360_rko_lio_ros.Base.{
  ℕ, ◌<◌, ◌≡◌, refl, sym, ap, subst, ◌∙◌, inl, inr, Bool, true, false, Option, none, some, List,
  ◌∷◌, ◌++◌, map, Option-cases, length, take, set, get_elem?, length-set, get_elem?-set_self,
  get_elem?-set_ne, get_elem?_lt, ℕ_discrete, ok,
}
use livox_mid360_rko_lio_ros.Comm.Underline.{underline, replace_period_by_underline-eq}
use livox_mid360_rko_lio_ros.Lds.{LidarDevice}
use livox_mid360_rko_lio_ros.Lddc.Publishers.{
  MsgType, PublisherKind, Publisher, publisher, create_publisher, name_of, current_private,
  current_global,
}

module _ (inet_ntoa : ℕ → List ℕ) (lidars : List LidarDevice) where
  -- The publisher that a lidar with this handle should have, for several topics or for one.
  abbrev pub wanted : Bool → PublisherKind → List ℕ → ℕ → Publisher
  wanted true kind topic handle =
      publisher kind (take 47 (topic ++ b'_' ∷ map underline (inet_ntoa handle))) 64
  wanted false kind topic handle = publisher kind topic 256

  abbrev pub Named : PublisherKind → List ℕ → List (Option Publisher) → Type 0
  Named kind topic slots =
      (i : ℕ) (p : Publisher) (d : LidarDevice)
      → get_elem? slots i ≡ some (some p)
      → get_elem? lidars i ≡ some d
      → p ≡ wanted true kind topic d.handle

  abbrev pub Creates : MsgType → PublisherKind → Type 0
  Creates msg_type kind =
      (name : List ℕ) (size : ℕ)
      → create_publisher msg_type name size ≡ some (publisher kind name size)

  module _ (msg_type : MsgType) (kind : PublisherKind) (topic : List ℕ)
      (creates : Creates msg_type kind) where
    create_lem :
        (handle : ℕ)
        → create_publisher msg_type (name_of inet_ntoa topic handle) 64
          ≡ some (wanted true kind topic handle)
    unfolding name_of
    create_lem handle =
        creates _ 64
        ∙ ap (λ name. some (publisher kind (take 47 (topic ++ b'_' ∷ name)) 64))
            (replace_period_by_underline-eq (inet_ntoa handle))

    module _ (i : ℕ) (d : LidarDevice) (at : get_elem? lidars i ≡ some d) where
      -- An existing publisher is found.
      found_lem :
          (slots : List (Option Publisher)) (p : Publisher)
          → get_elem? slots i ≡ some (some p)
          → current_private inet_ntoa msg_type topic lidars i slots ≡ ok (some p, slots)
      unfolding current_private
      found_lem slots p has = rw has refl

      -- A missing one is made.
      made_lem :
          (slots : List (Option Publisher))
          → get_elem? slots i ≡ some none
          → current_private inet_ntoa msg_type topic lidars i slots
            ≡ ok (
              some (wanted true kind topic d.handle),
              set slots i (some (wanted true kind topic d.handle)),
            )
      unfolding current_private
      made_lem slots missing = rw (missing, at, create_lem d.handle) refl

      Named-set :
          (slots : List (Option Publisher))
          → Named kind topic slots
          → i < length slots
          → Named kind topic (set slots i (some (wanted true kind topic d.handle)))
      Named-set slots named inside j p e has here = elim (ℕ_discrete i j) [
        | yes same ↦
            let w = wanted true kind topic d.handle in
            let has' : get_elem? (set slots i (some w)) i ≡ some (some p) =
              subst (λ k. get_elem? (set slots i (some w)) k ≡ some (some p)) (sym same) has in
            let stored : some (some w) ≡ some (some p) =
              sym (get_elem?-set_self slots i (some w) inside) ∙ has' in
            let known : w ≡ p = cc in
            let here' : some d ≡ some e = sym at ∙ ap (get_elem? lidars) same ∙ here in
            let equal : d ≡ e = cc in
            sym known ∙ ap (λ (x : LidarDevice). wanted true kind topic x.handle) equal
        | no other ↦ named j p e (sym (get_elem?-set_ne slots i j _ other) ∙ has) here
      ]

      pub private_lem :
          (slots : List (Option Publisher))
          → Named kind topic slots
          → i < length slots
          → (slots' : List (Option Publisher)) × (current_private inet_ntoa msg_type topic lidars i
                slots
              ≡ ok (some (wanted true kind topic d.handle), slots'))
            × Named kind topic slots'
            × (length slots' ≡ length slots)
            × (current_private inet_ntoa msg_type topic lidars i slots'
                ≡ ok (some (wanted true kind topic d.handle), slots'))
      private_lem slots named inside =
          let (slot, has) = get_elem?_lt slots i inside in
          elim (Option-cases slot) [
            | inl missing ↦
                let w = wanted true kind topic d.handle in
                (
                  set slots i (some w),
                  made_lem slots (has ∙ ap some missing),
                  Named-set slots named inside,
                  length-set slots i (some w),
                  found_lem (set slots i (some w)) w (get_elem?-set_self slots i (some w) inside),
                )
            | inr (p, present) ↦
                let here = has ∙ ap some present in
                let known = named i p d here at in
                let found : current_private inet_ntoa msg_type topic lidars i slots
                    ≡ ok (some (wanted true kind topic d.handle), slots) =
                  found_lem slots p here ∙ ap (λ q. ok (some q, slots)) known in
                (slots, found, named, refl, found)
          ]

    pub global_lem :
        (handle : ℕ) (slot : Option Publisher)
        → ((p : Publisher) → slot ≡ some p → p ≡ wanted false kind topic handle)
        → current_global inet_ntoa msg_type topic slot ≡ some (wanted false kind topic handle)
    unfolding current_global
    global_lem handle none named = creates topic 256
    global_lem handle (some p) named = ap some (named p refl)
