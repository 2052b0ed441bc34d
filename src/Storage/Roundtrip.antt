-- ===== src/Storage/Roundtrip.antt =====
-- What store/internal/storagepb/convert.go encodes it decodes again.
use durable.Storage.Messages.{PbRunMeta, PbCursor, PbFailure, PbOperation, PbCancel}
use durable.Base.{◌≡◌, refl, ◌∙◌, ap, some, [], ◌∷◌, String, String_comparable, arith}
use durable.Base.Map.{Map}
use durable.Kernel.{Failure}
use durable.Driver.{Bytes, OperationRecord, CancelRequest, Cursor, RunRecord}
use durable.Storage.{
  Stamps, Codec, ok, marshal, unmarshal, then_ok, operation_to_proto, operation_from_proto,
  failure_to_proto, failure_from_proto,
}
use durable.Storage.Fields.{
  AreExact, phase_back, settled_await, wake_back, ts_back, await_back, failure_back, operation_back,
}
use durable.Storage.Records.{
  annotate, run_meta, with_run_meta, cursor_to_proto, cursor_from_proto, cancel_to_proto,
  cancel_from_proto, marshal_run_meta, unmarshal_run_meta_into, marshal_cursor, unmarshal_cursor,
  marshal_operation, unmarshal_operation, marshal_failure, unmarshal_failure, marshal_cancel,
  unmarshal_cancel,
}

-- The wire format decodes what it encoded of a message.
abbrev pub Inverts : {M : Type 0} → Codec M → M → Type 0
Inverts c m = (b : Bytes) → c.encode m ≡ some b → c.decode b ≡ some m

module _ {M A : Type 0} ⦃c : Codec M⦄ where
  -- What is marshaled is unmarshaled and converted.
  pub unmarshal-marshal :
      (m : M) (b : Bytes) (f : M → A)
      → Inverts c m
      → marshal m ≡ ok b
      → then_ok (unmarshal b) f ≡ ok (f m)
  unfolding marshal unmarshal then_ok
  unmarshal-marshal m b f i h =
      let k : c.encode m ≡ some b = ground (arith, h) in rw (i b k, unmarshal) refl

pub annotate-none : (old new : Map String String) → old ≡ [] → annotate old new ≡ new
unfolding annotate
annotate-none old [] e = e
annotate-none old (x ∷ new) e = ground arith

module _ {S : Type 0} ⦃st : Stamps S⦄ (h : AreExact st) where
  cursor_back :
      (c : Cursor)
      → cursor_from_proto {S = S} (cursor_to_proto c)
        ≡ record c { awaiting = settled_await c.awaiting }
  unfolding cursor_from_proto cursor_to_proto
  cursor_back c = rw (phase_back c.phase) (
      rw (ts_back h c.next_attempt_at) (
        rw (ts_back h c.last_error_at) (
          rw (ts_back h c.updated_at) (
            rw (ts_back h c.started_at)
              (rw (await_back h c.awaiting) (rw (wake_back c.awaited) refl))))))

  -- Let the time stamps be exact for times other than zero, and the wire format decode what it
  -- encoded of this message. A cursor that MarshalCursor encodes is decoded by UnmarshalCursor
  -- as it was, but for the mode of a park that was not set, which becomes the one that waits
  -- for all targets.
  pub cursor-roundtrip :
      (c : Cursor) (b : Bytes) ⦃w : Codec (PbCursor S)⦄
      → Inverts w (cursor_to_proto c)
      → marshal_cursor S c ≡ ok b
      → unmarshal_cursor S b ≡ ok (record c { awaiting = settled_await c.awaiting })
  unfolding marshal_cursor unmarshal_cursor
  cursor-roundtrip c b i e =
      unmarshal-marshal (cursor_to_proto c) b cursor_from_proto i e ∙ ap ok (cursor_back c)

  pub operation-roundtrip :
      (op : OperationRecord) (b : Bytes) ⦃w : Codec (PbOperation S)⦄
      → Inverts w (operation_to_proto op)
      → marshal_operation S op ≡ ok b
      → unmarshal_operation S b ≡ ok op
  unfolding marshal_operation unmarshal_operation
  operation-roundtrip op b i e =
      unmarshal-marshal (operation_to_proto op) b operation_from_proto i e
      ∙ ap ok (operation_back h op)

  -- The identity of a run, before which a record has no annotations.
  pub run_meta-roundtrip :
      (r q : RunRecord) (b : Bytes) ⦃w : Codec (PbRunMeta S)⦄
      → Inverts w (run_meta r)
      → q.annotations ≡ []
      → marshal_run_meta S r ≡ ok b
      → unmarshal_run_meta_into S b q
        ≡ ok (record q {
          run_id = r.run_id;
          pipeline_id = r.pipeline_id;
          resource_id = r.resource_id;
          created_at = r.created_at;
          annotations = r.annotations;
        })
  unfolding marshal_run_meta unmarshal_run_meta_into with_run_meta run_meta
  run_meta-roundtrip r q b i n e =
      unmarshal-marshal (run_meta r) b (with_run_meta q) i e
      ∙ ap ok (rw (annotate-none q.annotations r.annotations n) (rw (ts_back h r.created_at) refl))

  pub failure-roundtrip :
      (f : Failure) (b : Bytes) ⦃w : Codec (PbFailure S)⦄
      → Inverts w (failure_to_proto f)
      → marshal_failure S f ≡ ok b
      → unmarshal_failure S b ≡ ok f
  unfolding marshal_failure unmarshal_failure
  failure-roundtrip f b i e =
      unmarshal-marshal (failure_to_proto f) b failure_from_proto i e ∙ ap ok (failure_back h f)

  pub cancel_back : (c : CancelRequest) → cancel_from_proto {S = S} (cancel_to_proto c) ≡ c
  unfolding cancel_from_proto cancel_to_proto
  cancel_back c = rw (ts_back h c.at) refl

  pub cancel-roundtrip :
      (c : CancelRequest) (b : Bytes) ⦃w : Codec (PbCancel S)⦄
      → Inverts w (cancel_to_proto c)
      → marshal_cancel S c ≡ ok b
      → unmarshal_cancel S b ≡ ok c
  unfolding marshal_cancel unmarshal_cancel
  cancel-roundtrip c b i e =
      unmarshal-marshal (cancel_to_proto c) b cancel_from_proto i e ∙ ap ok (cancel_back c)
