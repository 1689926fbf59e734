-- ===== src/Platform/Sanitization/Keys.antt =====
-- apps/backend/app/platform/sanitization.py: the entries that the loop on the parameters stores.
use supersonic.Prelude.{
  String, List, Option, none, some, ◌≡◌, refl, arith, true, [], ◌∷◌, string_eq, contains, inl, inr,
  All, ◌⊎◌, ap, ◌∙◌, All-of_members,
}
use supersonic.Contract.{JsonValue}
use supersonic.Prelude.Dict.{Dict, lookup}
use supersonic.Prelude.Partial.{bind-some}
use supersonic.Platform.Sanitization.{
  PythonTexts, sanitize_item, sanitize_keys, sanitize_entry, store_item,
}
use supersonic.Platform.Sanitization.Plain.{IsPythonTexts}
use supersonic.Platform.Sanitization.Parameters.{KeepsMark, item_idem}

module _ (texts : PythonTexts) where
  -- A turn that returned.
  pub entry-some :
      (key : String) (found : Option JsonValue) (rest : Option (Dict String JsonValue))
      (result : Dict String JsonValue)
      → sanitize_entry texts key found rest ≡ some result
      → (r : Dict String JsonValue) × (rest ≡ some r)
        × (((found ≡ none) × (result ≡ r))
            ⊎ ((item : JsonValue) × (kept : Option JsonValue) × (found ≡ some item)
                × (sanitize_item texts key item ≡ some kept)
                × (result ≡ store_item key kept r)))
  entry-some key none rest result h = (result, h, inl (refl, refl))
  entry-some key (some item) rest result h =
      let (kept, e, h1) = bind-some (sanitize_item texts key item) _ result h in
      let (r, e2, h2) = bind-some rest _ result h1 in
      (r, e2, inr (item, kept, refl, e, ground (arith, h2)))

  -- What the loop leaves of the entry of a key.
  abbrev pub Keeps : Dict String JsonValue → Dict String JsonValue → String → Type 0
  Keeps items stored key =
      (lookup key items ≡ none → lookup key stored ≡ none)
      × ((item : JsonValue) (kept : Option JsonValue)
          → lookup key items ≡ some item
          → sanitize_item texts key item ≡ some kept
          → (lookup key stored ≡ kept))

  -- Nothing is to be stored under a key.
  abbrev IsGone : Dict String JsonValue → String → Type 0
  IsGone items key =
      (lookup key items ≡ none)
      ⊎ ((item : JsonValue) × (lookup key items ≡ some item)
          × (sanitize_item texts key item ≡ some none))

  absent :
      (order : List String) (items result : Dict String JsonValue) (key : String)
      → sanitize_keys texts order items ≡ some result
      → IsGone items key
      → lookup key result ≡ none
  unfolding sanitize_keys lookup
  absent [] items result key h gone = ground (arith, h)
  absent (k ∷ order) items result key h gone =
      let (r, e, c) = entry-some k (lookup k items) (sanitize_keys texts order items) result h in
      let before = absent order items r key e gone in
      elim c [
        | inl (n, same) ↦ ap (lookup key) same ∙ before
        | inr (item, none, f, i, same) ↦ ap (lookup key) same ∙ before
        | inr (item, some v, f, i, same) ↦ ap (lookup key) same ∙ ground (arith, gone, f, i, before)
      ]

  stored_value :
      (order : List String) (items result : Dict String JsonValue) (key : String)
      (item value : JsonValue)
      → sanitize_keys texts order items ≡ some result
      → contains key order ≡ true
      → lookup key items ≡ some item
      → sanitize_item texts key item ≡ some (some value)
      → lookup key result ≡ some value
  unfolding sanitize_keys lookup contains
  stored_value [] items result key item value h member found kept = cc
  stored_value (k ∷ order) items result key item value h member found kept =
      let (r, e, c) = entry-some k (lookup k items) (sanitize_keys texts order items) result h in
      let before : contains key order ≡ true → lookup key r ≡ some value =
        λ m. stored_value order items r key item value e m found kept in
      elim c [
        | inl (n, same) ↦ ap (lookup key) same ∙ before (ground (arith, member, n, found))
        | inr (i, none, f, g, same) ↦
            ap (lookup key) same ∙ before (ground (arith, member, f, g, found, kept))
        | inr (i, some v, f, g, same) ↦
            ap (lookup key) same ∙ ground (arith, member, f, g, found, kept, before)
      ]

  again :
      (laws : IsPythonTexts texts) (order : List String)
      (items stored result : Dict String JsonValue)
      → All (KeepsMark texts) order
      → All (Keeps items stored) order
      → sanitize_keys texts order items ≡ some result
      → sanitize_keys texts order stored ≡ some result
  unfolding sanitize_keys
  again laws [] items stored result marks entries h = h
  again laws (key ∷ order) items stored result marks entries h =
      let (r, e, c) =
        entry-some key (lookup key items) (sanitize_keys texts order items) result h in
      let rest = again laws order items stored r marks.1 entries.1 e in
      elim c [
        | inl (n, same) ↦ rw (sanitize_keys, entries.0.0 n, rest, same)
        | inr (item, none, f, i, same) ↦ rw (sanitize_keys, entries.0.1 item none f i, rest, same)
        | inr (item, some v, f, i, same) ↦ rw (
          sanitize_keys,
          entries.0.1 item (some v) f i,
          rest,
          same,
          item_idem texts laws key item v marks.0 i,
        )
      ]

  kept_value :
      (order : List String) (items result : Dict String JsonValue) (key : String) (item : JsonValue)
      (kept : Option JsonValue)
      → sanitize_keys texts order items ≡ some result
      → contains key order ≡ true
      → lookup key items ≡ some item
      → sanitize_item texts key item ≡ some kept
      → lookup key result ≡ kept
  kept_value order items result key item none h member f i =
      absent order items result key h (inr (item, f, i))
  kept_value order items result key item (some v) h member f i =
      stored_value order items result key item v h member f i

  value-Keeps :
      (order : List String) (items result : Dict String JsonValue) (key : String)
      → sanitize_keys texts order items ≡ some result
      → contains key order ≡ true
      → Keeps items result key
  value-Keeps order items result key h member = (
    λ n. absent order items result key h (inl n),
    λ item kept. kept_value order items result key item kept h member,
  )

  -- The loop leaves what it stored.
  pub sanitize_keys_idem :
      (laws : IsPythonTexts texts) (order : List String) (items result : Dict String JsonValue)
      → All (KeepsMark texts) order
      → sanitize_keys texts order items ≡ some result
      → sanitize_keys texts order result ≡ some result
  sanitize_keys_idem laws order items result marks h =
      again laws order items result result marks
        (All-of_members (Keeps items result) order
          (λ key m. value-Keeps order items result key h m))
        h
