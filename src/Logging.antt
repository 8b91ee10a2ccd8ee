-- ===== src/Logging.antt =====
-- Log entries: internal/logx (contracts.go, adapter.go, nop.go), and the recorder of them that the
-- tests use, internal/testutil/testlog.go. The values of fields are an argument, and slog is a list
-- of the entries that it has got.
use service_courier_platform.Prelude.{◌≡◌, ◌∙◌, sym, ap, refl, String, List, [], ◌∷◌, ◌++◌, map}

pub data Level : Type 0 where
  debug info warn error : Level

module _ (V : Type 0) where
  -- `Field`, and the constructors `Any`, `String`, `Int`, `Int64`, `Time` and `Duration`, which keep
  -- the value as it is.
  pub record Field : Type 0 where
    pub key : String
    pub value : V

  abbrev pub any_field : String → V → Field
  any_field key value = record { key = key; value = value }

  pub record Entry : Type 0 where
    pub level : Level
    pub msg : String
    pub fields : List Field

  -- `toSlogArgs`.
  unfoldable pub to_slog_args : List Field → List (String × V)
  to_slog_args [] = []
  to_slog_args (f ∷ fs) = (f.key, f.value) ∷ to_slog_args fs

  -- A slog logger: the attributes that it puts before those of each entry.
  pub record Slog : Type 0 where
    pub attributes : List (String × V)

  pub record Line : Type 0 where
    pub level : Level
    pub msg : String
    pub attributes : List (String × V)

  -- `Debug`, `Info`, `Warn` and `Error` of SlogAdapter, and `With`.
  unfoldable pub slog_line : Slog → Level → String → List Field → Line
  slog_line l level msg fields = record {
    level = level;
    msg = msg;
    attributes = l.attributes ++ to_slog_args fields;
  }

  unfoldable pub slog_with : Slog → List Field → Slog
  slog_with l fields = record { attributes = l.attributes ++ to_slog_args fields }

  -- The no-op logger writes nothing.
  unfoldable pub nop_lines : Level → String → List Field → List Line
  nop_lines level msg fields = []

  -- A logger of the recorder, which has the fields of `With`.
  pub record Bound : Type 0 where
    pub base : List Field

  -- `bound.Debug` and the others, through `Recorder.add`, and `bound.With`.
  unfoldable pub record_entry : Bound → Level → String → List Field → List Entry → List Entry
  record_entry b level msg fields entries =
      entries ++ (record { level = level; msg = msg; fields = b.base ++ fields } ∷ [])

  unfoldable pub bound_with : Bound → List Field → Bound
  bound_with b fields = record { base = b.base ++ fields }

  -- `With`, one call after another.
  pub chain : Bound → List (List Field) → Bound
  chain b [] = b
  chain b (fs ∷ more) = chain (bound_with b fs) more

  pub slog_chain : Slog → List (List Field) → Slog
  slog_chain l [] = l
  slog_chain l (fs ∷ more) = slog_chain (slog_with l fs) more

  slog_args-append :
      (xs ys : List Field) → to_slog_args (xs ++ ys) ≡ to_slog_args xs ++ to_slog_args ys
  unfolding to_slog_args
  slog_args-append [] ys = refl
  slog_args-append (x ∷ xs) ys = ap (λ t. (x.key, x.value) ∷ t) (slog_args-append xs ys)

  -- The line of an entry of the recorder.
  abbrev line_of : Entry → Line
  line_of e = record { level = e.level; msg = e.msg; attributes = to_slog_args e.fields }

  chained :
      (b : Bound) (l : Slog) (more : List (List Field))
      → l.attributes ≡ to_slog_args b.base
      → (slog_chain l more).attributes ≡ to_slog_args (chain b more).base
  unfolding slog_with bound_with slog_chain chain
  chained b l [] h = h
  chained b l (fs ∷ more) h =
      chained (bound_with b fs) (slog_with l fs) more
        (ap (λ xs. xs ++ to_slog_args fs) h ∙ sym (slog_args-append b.base fs))

  map-append : (xs ys : List Entry) → map line_of (xs ++ ys) ≡ map line_of xs ++ map line_of ys
  map-append [] ys = refl
  map-append (x ∷ xs) ys = ap (λ t. line_of x ∷ t) (map-append xs ys)

  -- The recorder stands for the adapter: after any chain of `With` the entry that it records is the
  -- line that slog gets from the adapter, with the fields in the same order.
  pub record_entry-slog_line :
      (b : Bound) (l : Slog) (more : List (List Field)) (level : Level) (msg : String)
      (fields : List Field) (entries : List Entry)
      → l.attributes ≡ to_slog_args b.base
      → map line_of (record_entry (chain b more) level msg fields entries)
        ≡ map line_of entries ++ (slog_line (slog_chain l more) level msg fields ∷ [])
  unfolding record_entry slog_line
  record_entry-slog_line b l more level msg fields entries h =
      map-append entries _
      ∙ ap (λ a. map line_of entries ++ (record { level = level; msg = msg; attributes = a } ∷ []))
          (slog_args-append (chain b more).base fields
            ∙ ap (λ xs. xs ++ to_slog_args fields) (sym (chained b l more h)))
