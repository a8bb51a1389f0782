-- ===== src/Cli/Merge/Alike.antt =====
-- Two JSON values that differ in the order of the keys of their objects, at every level.
use gatekeeper_os.Prelude.{
  some, inr, inl, Bool-cases, sym, insert-insert_comm, ap, ◌++◌, ◌∙◌, ◌==◌, List, [], ◌∷◌, sort,
  true, false, nat_eq, ◌≡◌, refl, map, insert_sorted, sort-cons, ==_iff, arith,
}
use gatekeeper_os.Cli.Json.{
  array, object, no_fields, field, no_items, item, Json, Fields, Items, Text, text_eq,
}
use gatekeeper_os.Cli.Merge.Canonical.{
  canonicalize, canonical_items, canonical_fields, canonical, show_entries, units_leb, KeyEntry,
  shown_at,
}

mutual
  pub data Alike : Json → Json → Type 0 where
    identical : (v : Json) → Alike v v
    arrays : (xs ys : Items) → AlikeItems xs ys → Alike (array xs) (array ys)
    objects : (fs gs : Fields) → AlikeFields fs gs → Alike (object fs) (object gs)

  pub data AlikeItems : Items → Items → Type 0 where
    no_more : AlikeItems no_items no_items
    both :
        (v w : Json) (xs ys : Items)
        → Alike v w
        → AlikeItems xs ys
        → AlikeItems (item v xs) (item w ys)

  pub data AlikeFields : Fields → Fields → Type 0 where
    ended : AlikeFields no_fields no_fields
    kept :
        (k : Text) (v w : Json) (fs gs : Fields)
        → Alike v w
        → AlikeFields fs gs
        → AlikeFields (field k v fs) (field k w gs)
    exchanged :
        (k l : Text) (v w : Json) (fs : Fields)
        → (k == l) ≡ false
        → AlikeFields (field k v (field l w fs)) (field l w (field k v fs))
    chained : (fs gs hs : Fields) → AlikeFields fs gs → AlikeFields gs hs → AlikeFields fs hs

units_leb-total : (s t : Text) → units_leb s t ≡ false → units_leb t s ≡ true
units_leb-total [] t h = ground arith
units_leb-total (c ∷ s) [] h = refl
units_leb-total (c ∷ s) (d ∷ t) h = ground (arith, units_leb-total s t, ==_iff c d, ==_iff d c)

units_leb-chain :
    (s t u : Text) → units_leb s t ≡ true → units_leb t u ≡ true → units_leb s u ≡ true
units_leb-chain [] t u h k = refl
units_leb-chain (c ∷ s) [] u h k = ground arith
units_leb-chain (c ∷ s) (d ∷ t) [] h k = ground arith
units_leb-chain (c ∷ s) (d ∷ t) (e ∷ u) h k =
    ground (arith, units_leb-chain s t u, ==_iff c d, ==_iff d e, ==_iff c e)

units_leb-antisym : (s t : Text) → units_leb s t ≡ true → units_leb t s ≡ true → s ≡ t
units_leb-antisym [] [] h k = refl
units_leb-antisym [] (d ∷ t) h k = ground arith
units_leb-antisym (c ∷ s) [] h k = ground arith
units_leb-antisym (c ∷ s) (d ∷ t) h k =
    ground (arith, units_leb-antisym s t, ==_iff c d, ==_iff d c)

-- Two lists of entries that are printed in the same way.
record Printed (es ds : List KeyEntry) : Type 0 where
  pub sorted : sort units_leb (map (λ e. e.key) es) ≡ sort units_leb (map (λ e. e.key) ds)
  pub shown : (k : Text) → shown_at k es ≡ shown_at k ds

sort-text :
    (k : Text) (ks : List Text)
    → sort units_leb (k ∷ ks) ≡ insert_sorted units_leb k (sort units_leb ks)
sort-text = sort-cons units_leb units_leb-total units_leb-chain units_leb-antisym

kept-Printed :
    (k : Text) (t : Text) (es ds : List KeyEntry)
    → Printed es ds
    → Printed (record { key = k; shown = t } ∷ es) (record { key = k; shown = t } ∷ ds)
unfolding shown_at
kept-Printed k t es ds p = record {
  sorted = rw (sort-text k (map (λ e. e.key) es), sort-text k (map (λ e. e.key) ds), p.sorted) refl;
  shown = λ n. rw (p.shown n) refl;
}

chained-Printed : (es ds cs : List KeyEntry) → Printed es ds → Printed ds cs → Printed es cs
chained-Printed es ds cs p q = record {
  sorted = p.sorted ∙ q.sorted;
  shown = λ k. p.shown k ∙ q.shown k;
}

exchanged-Printed :
    (a b : KeyEntry) (es : List KeyEntry)
    → (a.key == b.key) ≡ false
    → Printed (a ∷ b ∷ es) (b ∷ a ∷ es)
unfolding shown_at
exchanged-Printed a b es apart = record {
  sorted =
      let keys = map (λ e. e.key) es in
      sort-text a.key (b.key ∷ keys)
      ∙ ap (insert_sorted units_leb a.key) (sort-text b.key keys)
      ∙ insert-insert_comm units_leb units_leb-total units_leb-chain units_leb-antisym a.key b.key
          (sort units_leb keys)
      ∙ sym (
          sort-text b.key (a.key ∷ keys)
          ∙ ap (insert_sorted units_leb b.key) (sort-text a.key keys));
  shown = λ k. elim (Bool-cases (a.key == k)) [
    | inl e ↦ elim (Bool-cases (b.key == k)) [
      | inl f ↦ ground (arith, ==_iff a.key k, ==_iff b.key k, ==_iff a.key b.key)
      | inr f ↦ rw (e, f) refl
    ]
    | inr e ↦ rw e refl
  ];
}

shown-keys :
    (es ds : List KeyEntry) (ks : List Text) (quote : Text → Text)
    → ((k : Text) → shown_at k es ≡ shown_at k ds)
    → map (λ k. quote k ++ b':' ∷ shown_at k es) ks ≡ map (λ k. quote k ++ b':' ∷ shown_at k ds) ks
shown-keys es ds [] quote h = refl
shown-keys es ds (k ∷ ks) quote h = rw (h k, shown-keys es ds ks quote h) refl

module _ (quote : Text → Text) where
  show_entries-Printed :
      (es ds : List KeyEntry) → Printed es ds → show_entries quote es ≡ show_entries quote ds
  show_entries-Printed es ds p =
      rw (p.sorted, shown-keys es ds (sort units_leb (map (λ e. e.key) ds)) quote p.shown) refl

  mutual
    unfolding canonical

    pub canonical-Alike : (v w : Json) → Alike v w → canonical quote v ≡ canonical quote w
    canonical-Alike v w (identical u) = refl
    canonical-Alike v w (arrays xs ys h) = rw (items-AlikeItems xs ys h) refl
    canonical-Alike v w (objects fs gs h) =
        show_entries-Printed (canonical_fields quote fs) (canonical_fields quote gs)
          (fields-AlikeFields fs gs h)

    items-AlikeItems :
        (xs ys : Items) → AlikeItems xs ys → canonical_items quote xs ≡ canonical_items quote ys
    items-AlikeItems xs ys no_more = refl
    items-AlikeItems xs ys (both v w xs' ys' h k) =
        rw (canonical-Alike v w h, items-AlikeItems xs' ys' k) refl

    fields-AlikeFields :
        (fs gs : Fields)
        → AlikeFields fs gs
        → Printed (canonical_fields quote fs) (canonical_fields quote gs)
    fields-AlikeFields fs gs ended = record { sorted = refl; shown = λ k. refl }
    fields-AlikeFields fs gs (kept k v w fs' gs' h r) = rw (canonical-Alike v w h) (
        kept-Printed k (canonical quote w) (canonical_fields quote fs') (canonical_fields quote gs')
          (fields-AlikeFields fs' gs' r))
    fields-AlikeFields fs gs (exchanged k l v w rest apart) =
        exchanged-Printed (record { key = k; shown = canonical quote v })
          (record { key = l; shown = canonical quote w }) (canonical_fields quote rest) apart
    fields-AlikeFields fs gs (chained a b c h r) =
        chained-Printed (canonical_fields quote a) (canonical_fields quote b)
          (canonical_fields quote c) (fields-AlikeFields a b h) (fields-AlikeFields b c r)

-- The canonical text of a value, and with it its digest, is the same in every order of the keys of
-- its objects, at every level.
pub canonicalize-Alike :
    (quote : Text → Text) (v w : Json)
    → Alike v w
    → canonicalize quote (some v) ≡ canonicalize quote (some w)
unfolding canonicalize
canonicalize-Alike quote v w h = canonical-Alike quote v w h
