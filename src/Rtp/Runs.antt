-- ===== src/Rtp/Runs.antt =====
-- Runs of the header decoder and the MID search, and their theorems at concrete inputs.
use wave.Common.{
  replicate, max, ℕ, ◌/◌, ◌<◌, ◌^◌, ◌≡◌, refl, arith, true, false, some, none, List, [], ◌∷◌, ◌++◌,
  bit_and,
}
use wave.Common.Bytes.{IsU16}
use wave.Rtp.Header.{
  Header, at_byte, extension_words, skip_extension, drop_padding, locate, parse, find_mid, mid,
}
use wave.Rtp.Header.Parse.{IsInside, rtp_parse_sound}
use wave.Rtp.Records.{ReceiveMeta}
use wave.Rtp.Pacer.{send, Pacer, create, reset, step, poll_started, poll}
use wave.Rtp.Pacer.Schedule.{sends, polled, poll-scheduled}
use wave.Rtp.Congestion.{Congestion, feedback}
use wave.Rtp.Congestion.Bounds.{IsBounded, feedback_lem}
use wave.Rtp.Header.Mid.{padding, element, mid-elements}

-- Version 2 with an extension of two words, one CSRC and two bytes of padding.
abbrev fixed : List ℕ
fixed =
    0xb1 ∷ 0x80 ∷ 0x12 ∷ 0x34 ∷ 0 ∷ 0 ∷ 0 ∷ 160 ∷ 0 ∷ 0 ∷ 0 ∷ 7 ∷ 1 ∷ 1 ∷ 1 ∷ 1 ∷ 0xbe ∷ 0xde ∷ 0
    ∷ 2 ∷ []

abbrev packet : List ℕ
packet = (fixed ++ (0x10 ∷ 5 ∷ 0 ∷ 0xa1 ∷ 0x76 ∷ 0x30 ∷ 0 ∷ 0 ∷ [])) ++ (0xff ∷ 0xfe ∷ 0 ∷ 2 ∷ [])

abbrev header : Header
header = record {
  payload_type = 0;
  marker = true;
  seq = 0x1234;
  timestamp = 160;
  ssrc = 7;
  payload_start = 28;
  payload_end = 30;
}

parsed : parse packet ≡ some header
unfolding parse locate skip_extension drop_padding extension_words
parsed = refl

found : mid 0xffff packet header ≡ 0x76 ∷ 0x30 ∷ []
unfolding mid find_mid
found = refl

rtp_parse_sound_example :
    IsInside packet header
    × (bit_and (at_byte packet 0 / 2 ^ 6) 0x03 ≡ 2)
    × IsU16 0x1234
    × (header.payload_type < 128)
rtp_parse_sound_example = rtp_parse_sound packet header (ground arith) parsed

mid-elements_example : mid 0xffff packet header ≡ 0x76 ∷ 0x30 ∷ []
mid-elements_example =
    mid-elements 0xffff header
      (element 1 (5 ∷ []) ∷ padding ∷ element 10 (0x76 ∷ 0x30 ∷ []) ∷ padding ∷ padding ∷ []) fixed
      (0xff ∷ 0xfe ∷ 0 ∷ 2 ∷ []) (ground arith) refl (omega arith) (omega arith) (omega arith)
      (ground arith) refl refl refl

abbrev received : ReceiveMeta
received = record {
  seq = 65535;
  timestamp = 160;
  ssrc = 7;
  payload_type = 0;
  marker = true;
  codec = 2;
}

abbrev room : List ℕ
room = replicate 50 9

abbrev steady : Congestion
steady = record { bitrate_bps = 1000; min_bps = 100; max_bps = 5000 }

-- Nothing arrived, and the rate goes up: both products stop at the largest `u32`.
all_lost :
    feedback 4294967295 0 0 steady ≡ record { bitrate_bps = 1050; min_bps = 100; max_bps = 5000 }
unfolding feedback
all_lost = refl

feedback_lem_example :
    IsBounded (feedback 5 20 30 steady)
    × (steady.min_bps ≡ steady.min_bps)
    × (steady.max_bps ≡ steady.max_bps)
    × ((feedback 5 20 30 steady).bitrate_bps ≡ max 500 100)
unfolding feedback
feedback_lem_example = feedback_lem steady 5 20 30 (omega arith)

-- A pacer for 8 kHz in packets of 20 ms: 160 ticks each.
abbrev voice : Pacer
voice = record { clock_rate = 8000; ptime_ms = 20; next_ms = 0; timestamp = 0; started = false }

created : create 8000 20 ≡ some voice
unfolding create
created = refl

no_period : create 8000 0 ≡ none
unfolding create
no_period = refl

-- The first poll starts the pacer and sends.
first_poll : (poll 7 voice).0 ≡ send 0 0
unfolding poll poll_started reset step
first_poll = refl

-- Two of the three polls were due; the third packet is ten milliseconds late.
poll-scheduled_example :
    (poll 150 (polled (100 ∷ 110 ∷ 125 ∷ []) (reset 100 65535 voice))).0 ≡ send 65855 10
unfolding sends step
poll-scheduled_example =
    poll-scheduled voice 100 65535 150 (100 ∷ 110 ∷ 125 ∷ []) (omega arith) (omega arith)
