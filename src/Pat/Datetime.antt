-- ===== src/Pat/Datetime.antt =====
-- `datetime.isoformat()` of an instant in UTC.
use cimd_proxy.Prelude.{
  ℕ, suc, zero, ◌+◌, ◌-◌, ◌*◌, ◌/◌, ◌%◌, String, ◌<>◌, ◌≡◌, refl, eqb, ltb, leb, if◌then◌else◌,
}
use Prim.Native.String.{char_at}
use cimd_proxy.Pat.Record.{Time}

-- A number in as many decimal digits as asked for.
padded : ℕ → ℕ → String → String
padded zero n tail = tail
padded (suc width) n tail = padded width (n / 10) (String.◌∷◌ (char_at "0123456789" (n % 10)) tail)

-- The date of a number of days since 1970-01-01. The calendar is counted from 1 March of the year 0.
date_text : ℕ → String
unfolding padded
date_text days =
    let z = days + 719468 in
    let era = z / 146097 in
    let doe = z % 146097 in
    let yoe = (doe + doe / 36524 - doe / 1460 - doe / 146096) / 365 in
    let doy = doe + yoe / 100 - 365 * yoe - yoe / 4 in
    let mp = (5 * doy + 2) / 153 in
    let day = doy - (153 * mp + 2) / 5 + 1 in
    let month = if ltb mp 10 then mp + 3 else mp - 9 in
    let year = yoe + era * 400 + (if leb month 2 then 1 else 0) in
    padded 4 year "" <> "-" <> padded 2 month "" <> "-" <> padded 2 day ""

unfoldable pub isoformat : Time → String
unfolding date_text padded
isoformat t =
    let micros = t % 1000000 in
    let seconds = t / 1000000 in
    let clock = seconds % 86400 in
    date_text (seconds / 86400)
    <> "T"
    <> padded 2 (clock / 3600) ""
    <> ":"
    <> padded 2 (clock / 60 % 60) ""
    <> ":"
    <> padded 2 (clock % 60) ""
    <> (if eqb micros 0 then "" else "." <> padded 6 micros "")
    <> "+00:00"

formatted :
    (isoformat 0 ≡ "1970-01-01T00:00:00+00:00")
    × (isoformat 951782399000001 ≡ "2000-02-28T23:59:59.000001+00:00")
    × (isoformat 951825600000000 ≡ "2000-02-29T12:00:00+00:00")
    × (isoformat 1795714690000000 ≡ "2026-11-26T17:38:10+00:00")
    × (isoformat 253402300799000000 ≡ "9999-12-31T23:59:59+00:00")
unfolding isoformat
formatted = (refl, refl, refl, refl, refl)
