-- ===== src/Message/Tags.antt =====
-- log.go: setting and reading the tags of a message.
use cypress.Base.{Option, none, some, List, [], ◌∷◌, ◌≡◌, refl, arith, if◌then◌else◌}
use cypress.Base.Text.{Text, same, same_iff}
use cypress.Message.Types.{Message, Tag}

-- An empty value is stored as no value.
abbrev tag_value : Text → Option Text
tag_value [] = none
tag_value (c ∷ cs) = some (c ∷ cs)

-- `AddTag`: the first tag of the name gets the value; a new tag goes to the end.
set_tag : Text → Text → List Tag → List Tag
set_tag key val [] = record { name = key; value = tag_value val } ∷ []
set_tag key val (t ∷ tags) =
    if same t.name key then record t { value = tag_value val } ∷ tags else t ∷ set_tag key val tags

-- `GetTag`: a tag with no value reads as the empty text.
find_tag : Text → List Tag → Option Text
find_tag key [] = none
find_tag key (t ∷ tags) =
    if same t.name key then some (elim t.value [ none ↦ [] | some v ↦ v ]) else find_tag key tags

module _ {T : Type 0} where
  unfoldable pub add_tag : Message T → Text → Text → Message T
  unfolding set_tag
  add_tag m key val = record m { tags = set_tag key val m.tags }

  pub get_tag : Message T → Text → Option Text
  unfolding find_tag
  get_tag m key = find_tag key m.tags

find_tag-set_tag :
    (key val query : Text) (tags : List Tag)
    → find_tag query (set_tag key val tags)
      ≡ (if same key query then some val else find_tag query tags)
unfolding find_tag set_tag
find_tag-set_tag key [] query [] = refl
find_tag-set_tag key (c ∷ cs) query [] = refl
find_tag-set_tag key [] query (t ∷ tags) = ground (
  arith,
  same_iff t.name key,
  same_iff key query,
  same_iff t.name query,
  find_tag-set_tag key [] query tags,
)
find_tag-set_tag key (c ∷ cs) query (t ∷ tags) = ground (
  arith,
  same_iff t.name key,
  same_iff key query,
  same_iff t.name query,
  find_tag-set_tag key (c ∷ cs) query tags,
)

-- After `AddTag` the name reads as the new value, the empty text included, and every other name
-- reads as before.
pub get_tag-add_tag :
    {T : Type 0} (m : Message T) (key val query : Text)
    → get_tag (add_tag m key val) query ≡ (if same key query then some val else get_tag m query)
unfolding get_tag add_tag
get_tag-add_tag m key val query = find_tag-set_tag key val query m.tags
