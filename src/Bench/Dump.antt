-- ===== src/Bench/Dump.antt =====
-- The bytes of BenchRecorder::serialize (cpp/include/mm/bench_recorder.hpp), read back by the format
-- that the file's head documents: six words of header, then the four streams.
use market_maker_proto.Prelude.{
  ℕ, zero, suc, ◌≡◌, refl, ap, subst, ◌+◌, ◌-◌, ◌*◌, ◌/◌, ◌%◌, ◌^◌, ◌<◌, false, arith, ltb,
  if◌then◌else◌, Option, none, some, ◌>>=◌, List, [], ◌∷◌, ◌++◌, length, append-nil, append_assoc,
  All,
}
use market_maker_proto.Prelude.Int.{ℤ, pos, negsuc, to_u64, InI64}
use market_maker_proto.Prelude.Text.{Bytes}
use market_maker_proto.Bench.{BenchRecorder, word_bytes, header_bytes, stream_bytes, serialize}

-- A word of `k` bytes, the lowest first, and the bytes after it.
unfoldable pub read_word : ℕ → Bytes → Option (ℕ × Bytes)
read_word zero bs = some (0, bs)
read_word (suc k) [] = none
read_word (suc k) (b ∷ bs) = read_word k bs >>= λ r. some (b + 256 * r.0, r.1)

-- The two's complement value of a 64-bit word.
abbrev pub from_u64 : ℕ → ℤ
from_u64 n = if ltb n (2 ^ 63) then pos n else negsuc (2 ^ 64 - 1 - n)

unfoldable pub read_stream : ℕ → Bytes → Option (List ℤ × Bytes)
read_stream zero bs = some ([], bs)
read_stream (suc n) bs =
    read_word 8 bs >>= λ w. read_stream n w.1 >>= λ r. some (from_u64 w.0 ∷ r.0, r.1)

pub record Header : Type 0 where
  pub svc_count : ℕ
  pub m0_m0p_count : ℕ
  pub m0p_m3_count : ℕ
  pub m0_m3_count : ℕ
  pub saturated : ℕ
  pub peak_sessions : ℕ

unfoldable pub read_header : Bytes → Option (Header × Bytes)
read_header bs = read_word 8 bs >>= λ a. read_word 8 a.1 >>= λ b. read_word 8 b.1 >>= λ c.
    read_word 8 c.1 >>= λ d. read_word 8 d.1 >>= λ e. read_word 8 e.1 >>= λ f. some (
      record {
        svc_count = a.0;
        m0_m0p_count = b.0;
        m0p_m3_count = c.0;
        m0_m3_count = d.0;
        saturated = e.0;
        peak_sessions = f.0;
      },
      f.1,
    )

pub record Dump : Type 0 where
  pub header : Header
  pub svc_samples : List ℤ
  pub m0_m0p : List ℤ
  pub m0p_m3 : List ℤ
  pub m0_m3 : List ℤ
  pub rest : Bytes

unfoldable pub read_dump : Bytes → Option Dump
read_dump bs = read_header bs >>= λ h. read_stream h.0.svc_count h.1 >>= λ a.
    read_stream h.0.m0_m0p_count a.1 >>= λ b. read_stream h.0.m0p_m3_count b.1 >>= λ c.
    read_stream h.0.m0_m3_count c.1 >>= λ d. some (record {
      header = h.0;
      svc_samples = a.0;
      m0_m0p = b.0;
      m0p_m3 = c.0;
      m0_m3 = d.0;
      rest = d.1;
    })

read-word_bytes :
    (k n : ℕ) (rest : Bytes) → n < 256 ^ k → read_word k (word_bytes k n ++ rest) ≡ some (n, rest)
unfolding read_word word_bytes
read-word_bytes zero n rest h = ground arith
read-word_bytes (suc k) n rest h =
    let small : n / 256 < 256 ^ k = omega arith in
    let split : n % 256 + 256 * (n / 256) ≡ n = omega arith in
    rw (read-word_bytes k (n / 256) rest small) (rw split refl)

from-to_u64 : (s : ℤ) → InI64 s → from_u64 (to_u64 s) ≡ s
from-to_u64 (pos n) h = ground arith
from-to_u64 (negsuc n) h =
    let big : ltb (2 ^ 64 - 1 - n) (2 ^ 63) ≡ false = ground arith in
    let back : 2 ^ 64 - 1 - (2 ^ 64 - 1 - n) ≡ n = omega arith in rw big (ap negsuc back)

to_u64_bound : (s : ℤ) → InI64 s → to_u64 s < 256 ^ 8
to_u64_bound (pos n) h = omega arith
to_u64_bound (negsuc n) h = omega arith

read-stream_bytes :
    (ss : List ℤ) (rest : Bytes)
    → All InI64 ss
    → read_stream (length ss) (stream_bytes ss ++ rest) ≡ some (ss, rest)
unfolding read_stream
read-stream_bytes [] rest h = refl
read-stream_bytes (s ∷ ss) rest h =
    rw
      (
        append_assoc (word_bytes 8 (to_u64 s)) (stream_bytes ss) rest,
        read-word_bytes 8 (to_u64 s) (stream_bytes ss ++ rest) (to_u64_bound s h.0),
        read-stream_bytes ss rest h.1,
        from-to_u64 s h.0,
      )
      refl

-- A recorder whose numbers fit the words of the format.
pub record Fits (r : BenchRecorder) : Type 0 where
  pub svc_count : length r.svc_samples < 2 ^ 64
  pub m0_m0p_count : length r.m0_m0p < 2 ^ 64
  pub m0p_m3_count : length r.m0p_m3 < 2 ^ 64
  pub m0_m3_count : length r.m0_m3 < 2 ^ 64
  pub saturated_word : r.saturated < 2 ^ 64
  pub svc_words : All InI64 r.svc_samples
  pub m0_m0p_words : All InI64 r.m0_m0p
  pub m0p_m3_words : All InI64 r.m0p_m3
  pub m0_m3_words : All InI64 r.m0_m3

unfoldable pub dump_of : BenchRecorder → ℕ → Dump
dump_of r peak = record {
  header = record {
    svc_count = length r.svc_samples;
    m0_m0p_count = length r.m0_m0p;
    m0p_m3_count = length r.m0p_m3;
    m0_m3_count = length r.m0_m3;
    saturated = r.saturated;
    peak_sessions = peak;
  };
  svc_samples = r.svc_samples;
  m0_m0p = r.m0_m0p;
  m0p_m3 = r.m0p_m3;
  m0_m3 = r.m0_m3;
  rest = [];
}

word : (n : ℕ) (rest : Bytes) → n < 2 ^ 64 → read_word 8 (word_bytes 8 n ++ rest) ≡ some (n, rest)
word n rest h = read-word_bytes 8 n rest (omega arith)

tail_of :
    (n : ℕ) (ns : List ℕ) (rest : Bytes)
    → n < 2 ^ 64
    → read_word 8 (header_bytes (n ∷ ns) ++ rest) ≡ some (n, header_bytes ns ++ rest)
tail_of n ns rest h =
    rw (append_assoc (word_bytes 8 n) (header_bytes ns) rest) (word n (header_bytes ns ++ rest) h)

module _ (a b c d e f : ℕ) (rest : Bytes) where
  read-header_bytes :
      a < 2 ^ 64
      → b < 2 ^ 64
      → c < 2 ^ 64
      → d < 2 ^ 64
      → e < 2 ^ 64
      → f < 2 ^ 64
      → read_header (header_bytes (a ∷ b ∷ c ∷ d ∷ e ∷ f ∷ []) ++ rest)
        ≡ some (
          record {
            svc_count = a;
            m0_m0p_count = b;
            m0p_m3_count = c;
            m0_m3_count = d;
            saturated = e;
            peak_sessions = f;
          },
          rest,
        )
  unfolding read_header
  read-header_bytes ha hb hc hd he hf =
      rw
        (
          tail_of a (b ∷ c ∷ d ∷ e ∷ f ∷ []) rest ha,
          tail_of b (c ∷ d ∷ e ∷ f ∷ []) rest hb,
          tail_of c (d ∷ e ∷ f ∷ []) rest hc,
          tail_of d (e ∷ f ∷ []) rest hd,
          tail_of e (f ∷ []) rest he,
          tail_of f [] rest hf,
        )
        refl

read_dump_steps :
    (bs t0 t1 t2 t3 : Bytes) (h : Header) (a b c d : List ℤ)
    → read_header bs ≡ some (h, t0)
    → read_stream h.svc_count t0 ≡ some (a, t1)
    → read_stream h.m0_m0p_count t1 ≡ some (b, t2)
    → read_stream h.m0p_m3_count t2 ≡ some (c, t3)
    → read_stream h.m0_m3_count t3 ≡ some (d, [])
    → read_dump bs
      ≡ some (record { header = h; svc_samples = a; m0_m0p = b; m0p_m3 = c; m0_m3 = d; rest = [] })
unfolding read_dump
read_dump_steps bs t0 t1 t2 t3 h a b c d e f g k l = rw (read_dump, e, f, g, k, l) refl

last_stream :
    (ss : List ℤ) → All InI64 ss → read_stream (length ss) (stream_bytes ss) ≡ some (ss, [])
last_stream ss h =
    subst (λ bs. read_stream (length ss) bs ≡ some (ss, [])) (append-nil (stream_bytes ss))
      (read-stream_bytes ss [] h)

-- Read by the documented format, the bytes of a recorder whose counts are below 2^64 and whose samples
-- are 64-bit integers give back the six header words and the four streams, with nothing left over.
pub read-serialize :
    (r : BenchRecorder) (peak : ℕ)
    → Fits r
    → peak < 2 ^ 64
    → read_dump (serialize r peak) ≡ some (dump_of r peak)
unfolding serialize dump_of
read-serialize r peak f h =
    let last = stream_bytes r.m0_m3 in
    let third = stream_bytes r.m0p_m3 ++ last in
    let tail = stream_bytes r.m0_m0p ++ third in
    let header : Header = (dump_of r peak).header in
    read_dump_steps (serialize r peak) (stream_bytes r.svc_samples ++ tail) tail third last header
      r.svc_samples r.m0_m0p r.m0p_m3 r.m0_m3
      (read-header_bytes (length r.svc_samples) (length r.m0_m0p) (length r.m0p_m3) (length r.m0_m3)
        r.saturated peak (stream_bytes r.svc_samples ++ tail) f.svc_count f.m0_m0p_count
        f.m0p_m3_count f.m0_m3_count f.saturated_word h)
      (read-stream_bytes r.svc_samples tail f.svc_words)
      (read-stream_bytes r.m0_m0p third f.m0_m0p_words)
      (read-stream_bytes r.m0p_m3 last f.m0p_m3_words) (last_stream r.m0_m3 f.m0_m3_words)
