-- ===== src/Panels/View.antt =====
-- components/ValidationHistoryPanel.tsx: what it asks the server for, and what it shows of a row.
pub mod Shown
pub mod Card
pub mod Latest
use sealed_sky_verification.Common.{
  ℕ, Bool, true, false, not, ◌&&◌, ◌||◌, Option, none, some, List, [], ◌∷◌, ◌++◌, if◌then◌else◌,
}
use sealed_sky_verification.Common.Text.{Text, codes, text_eq}
use sealed_sky_verification.Errors.{Error, Result, ok, err, type_error, ◌>>=◌}
use sealed_sky_verification.Json.{
  Json, null, num, str, obj, Fields, end, field, property, js_string, is_falsy, truthy_value,
  member,
}

-- The bodies of the two buttons.
abbrev pub publish_full_body : Json
publish_full_body = obj (
    field (codes "scope") (str (codes "full")) (
      field (codes "maxEntries") (num 200)
        (field (codes "subdomain") (str (codes "oracle-validation")) end)))

abbrev pub publish_last_body : Json
publish_last_body = obj (
    field (codes "scope") (str (codes "last"))
      (field (codes "subdomain") (str (codes "oracle-validation-last")) end))

abbrev pub history_limit_param : Json
history_limit_param = str (codes "3")

-- `fmt`
unfoldable pub fmt : Option Json → Text
fmt none = []
fmt (some null) = []
fmt (some v) = js_string v

pub data Badge : Type 0 where
  accepted device_signed rejected : Badge

abbrev badge_of_text : Text → Badge
badge_of_text s =
    if text_eq s (codes "accepted")
    then accepted
    else if text_eq s (codes "device_signed")
    then device_signed
    else rejected

unfoldable pub status_class : Option Json → Badge
status_class (some (str s)) = badge_of_text s
status_class _ = rejected

abbrev or_else : Option Json → Option Json → Option Json
or_else none other = other
or_else (some v) other = some v

-- A line with its label, and one that is left out where the field is falsy.
abbrev line : Text → Option Json → List (Text × Text) → List (Text × Text)
line label v rest = (label, fmt v) ∷ rest

abbrev optional_line : Text → Option Json → List (Text × Text) → List (Text × Text)
optional_line label none rest = rest
optional_line label (some v) rest = if is_falsy v then rest else (label, fmt (some v)) ∷ rest

pub record RowView : Type 0 where
  pub badge : Badge
  pub status : Text
  pub lines : List (Text × Text)

-- `item.sealedSkyText || item.result`
abbrev shown_text : Json → Option Json
shown_text item =
    or_else (truthy_value (member (codes "sealedSkyText") item)) (member (codes "result") item)

-- A row of the list; one that is null throws.
unfoldable pub row_view : Json → Result RowView
unfolding status_class fmt
row_view item = do
  status ← property (codes "status") item
  ok (record {
    badge = status_class status;
    status = fmt (or_else (truthy_value status) (some (str (codes "unknown"))));
    lines = optional_line (codes "stage:") (member (codes "stage") item) (
        optional_line (codes "note:") (member (codes "note") item) (
          line (codes "receivedAt:") (member (codes "receivedAt") item) (
            line (codes "Sealed Sky Text:") (shown_text item) (
              line (codes "timestamp:") (member (codes "timestamp") item) (
                line (codes "imageHash:") (member (codes "imageHash") item) (
                  line (codes "proof:") (member (codes "proof") item) (
                    optional_line (codes "reason:") (member (codes "reason") item) (
                      optional_line (codes "error:") (member (codes "error") item) (
                        optional_line (codes "details:") (member (codes "details") item) (
                          optional_line (codes "raw:") (member (codes "raw") item)
                            (optional_line (codes "tx:") (member (codes "tx") item) [])))))))))));
  })
