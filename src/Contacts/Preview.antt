-- ===== src/Contacts/Preview.antt =====
-- The preview of a segment (apps/api/src/contacts/contacts.service.ts) against the audience that a
-- campaign takes from it (apps/api/src/campaigns/campaigns.service.ts).
use tool_messager.Prelude.{
  Bool, List, Option, Text, [], arith, count_where, includes, none, refl, some, to_lower, true, ℕ,
  ◌&&◌, ◌==◌, ◌||◌, ◌∷◌, ◌≡◌, ◌≤◌,
}
use tool_messager.Store.{Contact, Db, Segment, is_none}
use tool_messager.Phone.{given}
use tool_messager.Campaigns.Creation.{
  CreateCampaign, column_contains, eligible, holds_if_given, in_segment, insensitive,
}
use tool_messager.Contacts.Segments.{segment_matches, segment_size}
use tool_messager.Shared.{Platform}

-- The preview ignores an empty text, which the campaign does not.
holds_if_not_empty :
    (o : Option Text) (p : Text → Bool)
    → holds_if_given o p ≡ true
    → holds_if_given (given o) p ≡ true
holds_if_not_empty none p h = refl
holds_if_not_empty (some t) p h = ground (arith, h)

-- The preview searches the e-mail too.
searched_by_both :
    (o : Option Text) (p q : Text → Bool)
    → ((t : Text) → p t ≡ true → q t ≡ true)
    → holds_if_given o p ≡ true
    → holds_if_given (given o) q ≡ true
searched_by_both none p q more h = refl
searched_by_both (some t) p q more h = ground (arith, h, more t)

weaker_conjuncts :
    (here_too live a b c d e f e' f' : Bool)
    → (a && b && c && d && e && f) ≡ true
    → here_too ≡ true
    → live ≡ true
    → (e ≡ true → e' ≡ true)
    → (f ≡ true → f' ≡ true)
    → (here_too && live && a && b && c && d && e' && f') ≡ true
weaker_conjuncts here_too live a b c d e f e' f' h w l he hf = ground (arith, h, w, l, he, hf)

segment_in_preview :
    (db : Db) (workspace : ℕ) (s : Segment) (c : Contact)
    → in_segment db s c ≡ true
    → (c.workspace_id == workspace) ≡ true
    → is_none c.deleted_at ≡ true
    → segment_matches db workspace s.filter c ≡ true
unfolding in_segment segment_matches
segment_in_preview db workspace s c h here_too live =
    weaker_conjuncts (c.workspace_id == workspace) (is_none c.deleted_at) _ _ _ _ _ _ _ _ h here_too
      live
      (holds_if_not_empty s.filter.source
        (λ t. column_contains (insensitive c.source) (to_lower t)))
      (searched_by_both s.filter.search
        (λ t.
          includes (to_lower t) (to_lower c.display_name)
          || column_contains c.normalized_phone t
          || column_contains c.platform_user_id t)
        (λ t.
          includes (to_lower t) (to_lower c.display_name)
          || column_contains c.normalized_phone t
          || column_contains c.platform_user_id t
          || column_contains (insensitive c.email) (to_lower t))
        (λ t k. ground (arith, k)))

eligible_in_preview :
    (db : Db) (workspace : ℕ) (input : CreateCampaign) (s : Segment) (p : Platform) (c : Contact)
    → eligible db workspace input (some s) p c ≡ true
    → segment_matches db workspace s.filter c ≡ true
unfolding eligible
eligible_in_preview db workspace input s p c h =
    segment_in_preview db workspace s c (ground (arith, h)) (ground (arith, h)) (ground (arith, h))

count_where-implied :
    {A : Type 0} (p q : A → Bool)
    → ((x : A) → p x ≡ true → q x ≡ true)
    → (xs : List A) → count_where p xs ≤ count_where q xs
unfolding count_where
count_where-implied p q imp [] = omega arith
count_where-implied p q imp (x ∷ xs) = ground (arith, imp x, count_where-implied p q imp xs)

-- A contact that a campaign takes from a segment meets the conditions by which the segment's preview
-- selects and counts contacts, and no more contacts are eligible than the total that the preview counts.
pub audience_within_preview :
    (db : Db) (workspace : ℕ) (input : CreateCampaign) (s : Segment) (p : Platform) (c : Contact)
    → eligible db workspace input (some s) p c ≡ true
    → (segment_matches db workspace s.filter c ≡ true)
      × (count_where (eligible db workspace input (some s) p) db.contacts
          ≤ segment_size db workspace s.filter)
unfolding segment_size
audience_within_preview db workspace input s p c h = (
  eligible_in_preview db workspace input s p c h,
  count_where-implied (eligible db workspace input (some s) p)
      (segment_matches db workspace s.filter) (eligible_in_preview db workspace input s p)
      db.contacts,
)
