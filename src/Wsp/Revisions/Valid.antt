-- ===== src/Wsp/Revisions/Valid.antt =====
-- What a revision that verifies is.
use enbu.Prelude.{
  ◌↔◌, Bytes, eq_iff, true, Option, none, some, ◌≡◌, refl, ap, subst, &&-left, &&-right,
}
use enbu.Outcome.{ok, err, Error, invalid, rollback, >>=-eq-ok, guard->>, ok_injective}
use enbu.Signing.{verify, domain_state}
use enbu.Wsp.{Principal, Protocol, Signed, decode_canonical, decode_signed}
use enbu.Wsp.Members.{Verified, principal}
use enbu.Wsp.Chain.{ControlView, get}
use enbu.Wsp.Revisions.{VerifiedState, validate_state, verify_revision}

module _ (P : Protocol) (view : ControlView) (workspace resource : Bytes) where
  -- The bytes `blob` are a signed State of the resource, its revision is their digest, and the view
  -- holds the Control that it names, which lists the author with a key that the signature fits.
  pub record IsRevision (rev blob : Bytes) (st : VerifiedState) : Type 0 where
    pub signed : Signed
    pub reads : decode_signed P blob ≡ ok signed
    pub decodes : decode_canonical P.state_codec signed.body ≡ ok st.state
    pub valid : validate_state P st.state ≡ ok tt
    pub digest_eq : (P.digest_of blob ≡ rev) × (st.digest ≡ rev)
    pub of_resource : (st.state.workspace ≡ workspace) × (st.state.resource ≡ resource)
    pub written : Verified
    pub names_control : get view st.state.control ≡ some written
    pub author : Principal
    pub lists_author : principal written.control st.state.author ≡ some author
    pub signature_ok :
        verify P.crypto author.signing domain_state signed.body signed.signature ≡ true

  some_or :
      {A : Type 0} (o : Option A) (e : Error) (a : A)
      → elim o [ none ↦ err e | some w ↦ ok w ] ≡ ok a
      → o ≡ some a
  some_or none e a h = absurd (cc)
  some_or (some w) e a h = ap some (ok_injective h)

  verify_revision-IsRevision :
      (rev blob : Bytes) (st : VerifiedState)
      → verify_revision P view workspace resource rev blob ≡ ok st
      → IsRevision rev blob st
  unfolding verify_revision
  verify_revision-IsRevision rev blob st h =
      let (a1, h1) = guard->> _ _ _ h in
      let (s, e1, h2) = >>=-eq-ok _ _ h1 in
      let (c, e2, h3) = >>=-eq-ok _ _ h2 in
      let (u, e3, h4) = >>=-eq-ok (validate_state P c) _ h3 in
      let (a2, h5) = guard->> _ _ _ h4 in
      let (w, e4, h6) = >>=-eq-ok _ _ h5 in
      let (a, e5, h7) = >>=-eq-ok _ _ h6 in
      let (a3, h8) = guard->> _ _ _ h7 in
      let made : IsRevision rev blob (record { state = c; digest = rev }) = record {
        signed = s;
        reads = e1;
        decodes = e2;
        valid = e3;
        digest_eq = ((eq_iff (P.digest_of blob) rev).0 a1, refl);
        of_resource = (
          (eq_iff c.workspace workspace).0 (&&-left _ _ a2),
          (eq_iff c.resource resource).0 (&&-right _ _ a2),
        );
        written = w;
        names_control = some_or (get view c.control) rollback w e4;
        author = a;
        lists_author = some_or (principal w.control c.author) invalid a e5;
        signature_ok = a3;
      } in
      subst (IsRevision rev blob) (ok_injective h8) made

  IsRevision-verify_revision :
      (rev blob : Bytes) (st : VerifiedState)
      → IsRevision rev blob st
      → verify_revision P view workspace resource rev blob ≡ ok st
  unfolding verify_revision
  IsRevision-verify_revision rev blob st i =
      let a1 = (eq_iff (P.digest_of blob) rev).1 i.digest_eq.0 in
      let a2 = (eq_iff st.state.workspace workspace).1 i.of_resource.0 in
      let a3 = (eq_iff st.state.resource resource).1 i.of_resource.1 in
      rw
        (
          a1, i.reads, i.decodes, i.valid, a2, a3, i.names_control, i.lists_author, i.signature_ok,
          verify_revision,
        )
        (ap ok (rw (← i.digest_eq.1) refl))

  -- `VerifyRevision` accepts a blob exactly when it is a revision of the resource, in its canonical
  -- encoding and with a valid State, signed under the key that the Control it names lists for its
  -- author, and the view holds that Control.
  pub verify_revision_iff :
      (rev blob : Bytes) (st : VerifiedState)
      → (verify_revision P view workspace resource rev blob ≡ ok st) ↔ IsRevision rev blob st
  verify_revision_iff rev blob st =
      (verify_revision-IsRevision rev blob st, IsRevision-verify_revision rev blob st)
