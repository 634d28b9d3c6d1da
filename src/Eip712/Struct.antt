-- ===== src/Eip712/Struct.antt =====
-- What the struct hash of an authorization binds.
use mathlib.Core.Path.{subst}
use eip.Prelude.{◌*◌, ◌≡◌, ◌⊎◌, refl, sym, ◌∙◌, inl, inr, arith, Bytes, length}
use eip.Outcome.{ok, >>=-eq-ok}
use eip.Types.{
  Hash, AuthorizationKind, transfer, receive, cancel, other, Authorization, validate_authorization,
  validate_kind,
}
use eip.Ethereum.{Ethereum, AllFit}
use eip.Ethereum.Laws.{EthereumLaws}
use eip.Eip712.{
  transfer_type, receive_type, cancel_type, type_hash, struct_arguments, struct_values,
  authorization_struct_hash,
}
use eip.Eip712.Fields.{
  Collision, MessageFits, SameMessage, type_text, IsKnown, or_else, texts_differ, keccak256-bind,
  pack-bind, pack-length,
}

pub kind-IsKnown :
    (k : AuthorizationKind) (a : Authorization) (u : Unit {0})
    → validate_kind k a ≡ ok u
    → IsKnown k
unfolding validate_kind
kind-IsKnown (other text) a u e = cc
kind-IsKnown _ a u e = tt

module _ (eth : Ethereum) (laws : EthereumLaws eth) where
  type_hash-text :
      (k : AuthorizationKind) (t : Hash) → type_hash eth k ≡ ok t → t ≡ eth.keccak256 (type_text k)
  unfolding type_hash
  type_hash-text (other text) t e = cc
  type_hash-text _ t e = cc

  -- What a struct hash was made of.
  struct_hash-packed :
      (k : AuthorizationKind) (a : Authorization) (h : Hash)
      → a.kind ≡ k
      → authorization_struct_hash eth a ≡ ok h
      → (b : Bytes) × (eth.pack_arguments
            (struct_arguments k)
            (struct_values k (eth.keccak256 (type_text k)) a)
          ≡ ok b)
        × (h ≡ eth.keccak256 b)
  unfolding authorization_struct_hash
  struct_hash-packed k a h known e =
      let (_, _, e₁) = >>=-eq-ok (validate_authorization a) _ e in
      let (t, p₁, e₂) = >>=-eq-ok (type_hash eth a.kind) _ e₁ in
      let (b, p₂, e₃) =
        >>=-eq-ok (eth.pack_arguments (struct_arguments a.kind) (struct_values a.kind t a)) _ e₂ in
      let text : t ≡ eth.keccak256 (type_text k) =
        type_hash-text k t (subst (λ j. type_hash eth j ≡ ok t) known p₁) in
      let at_kind : eth.pack_arguments (struct_arguments k) (struct_values k t a) ≡ ok b =
        subst (λ j. eth.pack_arguments (struct_arguments j) (struct_values j t a) ≡ ok b) known
          p₂ in
      (
        b,
        subst (λ u. eth.pack_arguments (struct_arguments k) (struct_values k u a) ≡ ok b) text
            at_kind,
        cc e₃,
      )

  pub struct-AllFit :
      (k : AuthorizationKind) (a : Authorization) (t : Bytes)
      → MessageFits k a
      → AllFit (struct_arguments k) (struct_values k (eth.keccak256 t) a)
  struct-AllFit cancel a t f = (laws.keccak256-length t, (f.0, (f.1, tt)))
  struct-AllFit _ a t f =
      (laws.keccak256-length t, (f.0, (f.1, (f.2, (omega arith, (omega arith, (f.5, tt)))))))

  abbrev Packed : AuthorizationKind → Authorization → Bytes → Type 0
  Packed k a b =
      eth.pack_arguments (struct_arguments k) (struct_values k (eth.keccak256 (type_text k)) a)
      ≡ ok b

  Packed-length :
      (k : AuthorizationKind) (a : Authorization) (b : Bytes)
      → MessageFits k a
      → Packed k a b
      → length b ≡ 32 * length (struct_arguments k)
  Packed-length k a b f p =
      pack-length eth laws (struct_arguments k) _ b (struct-AllFit k a (type_text k) f) p

  kinds-bind :
      (k k' : AuthorizationKind) (a a' : Authorization) (b : Bytes)
      → IsKnown k
      → IsKnown k'
      → MessageFits k a
      → MessageFits k' a'
      → Packed k a b
      → Packed k' a' b
      → ((k ≡ k') × SameMessage k a a') ⊎ Collision eth
  kinds-bind transfer transfer a a' b _ _ f f' p p' =
      let same =
        pack-bind eth laws (struct_arguments transfer) _ _ b
          (struct-AllFit transfer a transfer_type f) (struct-AllFit transfer a' transfer_type f') p
          p' in
      inl (refl, (cc same, cc same, cc same, cc same, cc same, cc same))
  kinds-bind receive receive a a' b _ _ f f' p p' =
      let same =
        pack-bind eth laws (struct_arguments receive) _ _ b (struct-AllFit receive a receive_type f)
          (struct-AllFit receive a' receive_type f') p p' in
      inl (refl, (cc same, cc same, cc same, cc same, cc same, cc same))
  kinds-bind cancel cancel a a' b _ _ f f' p p' =
      let same =
        pack-bind eth laws (struct_arguments cancel) _ _ b (struct-AllFit cancel a cancel_type f)
          (struct-AllFit cancel a' cancel_type f') p p' in
      inl (refl, (cc same, cc same))
  kinds-bind transfer receive a a' b _ _ f f' p p' =
      let same =
        pack-bind eth laws (struct_arguments transfer) _ _ b
          (struct-AllFit transfer a transfer_type f) (struct-AllFit receive a' receive_type f') p
          p' in
      inr (transfer_type, receive_type, texts_differ, cc same)
  kinds-bind receive transfer a a' b _ _ f f' p p' =
      let same =
        pack-bind eth laws (struct_arguments transfer) _ _ b
          (struct-AllFit receive a receive_type f) (struct-AllFit transfer a' transfer_type f') p
          p' in
      inr (receive_type, transfer_type, (λ e. texts_differ (sym e)), cc same)
  kinds-bind cancel transfer a a' b _ _ f f' p p' =
      absurd (omega (arith, Packed-length cancel a b f p, Packed-length transfer a' b f' p'))
  kinds-bind cancel receive a a' b _ _ f f' p p' =
      absurd (omega (arith, Packed-length cancel a b f p, Packed-length receive a' b f' p'))
  kinds-bind transfer cancel a a' b _ _ f f' p p' =
      absurd (omega (arith, Packed-length transfer a b f p, Packed-length cancel a' b f' p'))
  kinds-bind receive cancel a a' b _ _ f f' p p' =
      absurd (omega (arith, Packed-length receive a b f p, Packed-length cancel a' b f' p'))
  kinds-bind (other t) k' a a' b h _ f f' p p' = absurd h
  kinds-bind k (other t) a a' b _ h f f' p p' = absurd h

  struct_hash-IsKnown :
      (a : Authorization) (h : Hash) → authorization_struct_hash eth a ≡ ok h → IsKnown a.kind
  unfolding authorization_struct_hash validate_authorization
  struct_hash-IsKnown a h e =
      let (u, p, _) = >>=-eq-ok (validate_kind a.kind a) _ e in kind-IsKnown a.kind a u p

  pub struct_hash-bind :
      (a a' : Authorization) (h : Hash)
      → MessageFits a.kind a
      → MessageFits a'.kind a'
      → authorization_struct_hash eth a ≡ ok h
      → authorization_struct_hash eth a' ≡ ok h
      → ((a.kind ≡ a'.kind) × SameMessage a.kind a a') ⊎ Collision eth
  struct_hash-bind a a' h f f' e e' =
      let (b, p, q) = struct_hash-packed a.kind a h refl e in
      let (b', p', q') = struct_hash-packed a'.kind a' h refl e' in
      or_else (keccak256-bind eth laws b b' (sym q ∙ q')) λ same.
        kinds-bind a.kind a'.kind a a' b (struct_hash-IsKnown a h e) (struct_hash-IsKnown a' h e') f
          f' p (subst (Packed a'.kind a') (sym same) p')
