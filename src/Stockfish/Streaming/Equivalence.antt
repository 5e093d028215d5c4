-- ===== src/Stockfish/Streaming/Equivalence.antt =====
-- The streaming loop collects what the plain one does.
use ironfish.Base.{
  ℕ, Bool, true, false, Option, none, some, is_some, List, [], ◌∷◌, Text, trim, nat_eq, ◌==◌, Map,
  insert, All, Bool-cases, ◌≡◌, refl, ap, inl, inr, arith,
}
use ironfish.Core.Error.{Result, ok, err}
use ironfish.Core.Analysis.{AnalysisRequest, AnalysisProgress}
use ironfish.Stockfish.Uci.{UciInfo, parse_info}
use ironfish.Stockfish.Analysis.{
  or_else, has_pv, Collected, nothing, collect_info, collect_line, collect, moves_of, variation,
  variations, parsed_ponder, collect_analysis,
}
use ironfish.Stockfish.Streaming.{
  offer, report, report_line, stream, streamed_result, collect_analysis_streaming,
}

-- The texts of the moves that come with an information can be sliced.
abbrev pub Readable : UciInfo → Type 0
Readable i = (is_some (moves_of i.pv) ≡ true) × (is_some (parsed_ponder i.currmove) ≡ true)

-- What a read brings is readable.
abbrev pub AllReadable : Option UciInfo → Type 0
AllReadable none = Unit
AllReadable (some i) = Readable i

abbrev pub ReadableRead : Result Text → Type 0
ReadableRead (ok line) = AllReadable (parse_info (trim line))
ReadableRead (err e) = Unit

abbrev pub Clean : Map ℕ (UciInfo × List Text) → Type 0
Clean pvs = All (λ e. is_some (moves_of e.1.1) ≡ true) pvs

insert-Clean :
    (rank : ℕ) (i : UciInfo) (pvs : Map ℕ (UciInfo × List Text))
    → is_some (moves_of i.pv) ≡ true
    → Clean pvs
    → Clean (insert rank (i, i.pv) pvs)
unfolding insert
insert-Clean rank i [] ok_pv clean = (ok_pv, tt)
insert-Clean rank i ((k, e) ∷ pvs) ok_pv (c, clean) = elim (Bool-cases (k == rank)) [
  | inl y ↦ rw y (ok_pv, clean)
  | inr n ↦ rw n (c, insert-Clean rank i pvs ok_pv clean)
]

variations-Clean : (pvs : Map ℕ (UciInfo × List Text)) → Clean pvs → is_some (variations pvs) ≡ true
unfolding variations variation
variations-Clean [] clean = refl
variations-Clean ((rank, (info, moves)) ∷ pvs) (c, clean) =
    ground (arith, c, variations-Clean pvs clean)

collect_info-Clean :
    (i : UciInfo) (c : Collected) → Readable i → Clean c.pvs → Clean (collect_info i c).pvs
unfolding collect_info
collect_info-Clean i c (p, q) clean = elim (Bool-cases (has_pv i)) [
  | inl y ↦ rw y (insert-Clean (or_else 1 i.multipv) i c.pvs p clean)
  | inr n ↦ rw n clean
]

pub collect_line-Clean :
    (line : Text) (c : Collected)
    → AllReadable (parse_info line)
    → Clean c.pvs
    → Clean (collect_line line c).pvs
unfolding collect_line
collect_line-Clean line c r clean = by_info (parse_info line) r
  where
    by_info :
        (o : Option UciInfo)
        → AllReadable o
        → Clean (elim o as (λ x. Collected) [ none ↦ c | some info ↦ collect_info info c ]).pvs
    by_info none r = clean
    by_info (some i) r = collect_info-Clean i c r clean

report-works :
    (request : AnalysisRequest) (i : UciInfo) (c : Collected)
    → Readable i
    → Clean c.pvs
    → is_some (report request i c) ≡ true
unfolding report offer
report-works request i c (p, q) clean = ground (arith, q, variations-Clean c.pvs clean)

pub report_line-works :
    (request : AnalysisRequest) (line : Text) (c : Collected)
    → AllReadable (parse_info line)
    → Clean c.pvs
    → (ps : List AnalysisProgress) × (report_line request line c ≡ some ps)
unfolding report_line
report_line-works request line c r clean = by_info (parse_info line) r
  where
    given :
        (o : Option (List AnalysisProgress))
        → is_some o ≡ true
        → (ps : List AnalysisProgress) × (o ≡ some ps)
    given none e = ground (arith, e)
    given (some ps) e = (ps, refl)

    by_info :
        (o : Option UciInfo)
        → AllReadable o
        → (ps : List AnalysisProgress) × ((elim o as (λ x. Option (List AnalysisProgress)) [
          | none ↦ some []
          | some info ↦ report request info c
        ])
            ≡ some ps)
    by_info none r = ([], refl)
    by_info (some i) r = given (report request i c) (report-works request i c r clean)

-- The reads with a token that is never cancelled.
abbrev pub uncancelled : List (Result Text) → List (Bool × Result Text)
uncancelled [] = []
uncancelled (r ∷ reads) = (false, r) ∷ uncancelled reads

stream-collect :
    (request : AnalysisRequest) (reads : List (Result Text)) (c : Collected)
    → All ReadableRead reads
    → Clean c.pvs
    → (stream request (uncancelled reads) c).outcome ≡ some (collect reads c)
unfolding stream collect
stream-collect request [] c r clean = refl
stream-collect request (err e ∷ reads) c r clean = refl
stream-collect request (ok line ∷ reads) c (r, rs) clean =
    let now = collect_line (trim line) c in
    let clean' = collect_line-Clean (trim line) c r clean in
    let (ps, e) = report_line-works request (trim line) now r clean' in
    let ih = stream-collect request reads now rs clean' in ground (arith, e, ih)

-- As long as it is not cancelled, and the moves in the output can be sliced, the streaming analysis
-- ends as the plain one does on the same reads: with the same result, the same error, or waiting.
pub collect_analysis_streaming-collect_analysis :
    (request : AnalysisRequest) (elapsed now : ℕ) (reads : List (Result Text))
    → All ReadableRead reads
    → (collect_analysis_streaming request elapsed now (uncancelled reads)).0
      ≡ collect_analysis request elapsed now reads
unfolding collect_analysis_streaming collect_analysis streamed_result
collect_analysis_streaming-collect_analysis request elapsed now reads r =
    ap (streamed_result request elapsed now) (stream-collect request reads nothing r tt)
