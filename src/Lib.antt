-- ===== src/Lib.antt =====
-- Sealed Sky: capsules that open at a set time. A capsule is sealed in the browser for one of two
-- backends: timelock encryption to a round of drand, or a random key whose commitment names an
-- unlock time and that the page shows only after the cTRNG beacon has a block at or after it.
--
-- The model is of the web application, sealed-sky-web/src. Its files and the files here:
--   lib/bytes.ts: Bytes, over Base64 (btoa and atob) and Js (parseInt, toString, trim)
--   lib/envelope.ts, lib/envelope-ctrng.ts: Envelope, over Json and Codec
--   lib/symmetric.ts: Symmetric
--   lib/drand.ts: Drand; lib/ctrng.ts: Ctrng; both over Http
--   lib/queue.ts, lib/backend.ts: Queue
--   lib/tlock.ts: Tlock
--   lib/share.ts: Share, over Share/Url (URLSearchParams and encodeURIComponent)
--   lib/ens.ts: Ens; lib/namestone.ts: Namestone; lib/wallet.ts: Wallet
--   components/UsbSignInference.tsx, lib/sha256Hex.ts: Usb, with the whole form in Usb/Form
--     and what it shows in Usb/Form/View
--   lib/format.ts, components/ValidationHistoryPanel.tsx: Panels, with what is shown in Panels/View
--     and the dates of `formatUtc` in Panels/Utc
--   components/Queue.tsx: View; components/Detail.tsx: View/Detail, and its buttons that copy in
--     View/Copying
--   components/WalletConnect.tsx: Wallet/Identity
--   components/Compose.tsx: Compose, with what it shows in Compose/View
--   App.tsx: App; sealing, publishing and the import at boot in App/Seal; unsealing, with the
--     tasks of `tryUnseal` in App and the state and events in App/Step; the order of the queue on the
--     page in App/Sorted; App/Seal/Shared is about a capsule that goes from page to page
-- and of the oracle's server, backend/server.js, in Server: the history file and /history in Server,
--   Server/Log and Server/Recent; /submit in Server/Submit; /sign-inference in Server/Sign;
--   /publish-validation-ens in Server/Publish and Server/Label; /read-validation-ens in
--   Server/Lookup. The panels of the page call these routes.
-- scripts/test-helpers.ts, which calls the applet of the device, is Applet; its setup is Applet/Setup.
-- Functions keep their names in snake case; Errors has what the program throws.
--
-- Numbers are natural numbers. Where the program holds them in a double, the theorems that need it
-- ask for less than 2 ^ 53; `u64BeBytes` is exact below 2 ^ 64. A text is the list of its UTF-16
-- code units, and an array of bytes a list of numbers below 256. Loops are structural recursion;
-- where a number is printed digit by digit the fuel is one more than the number, and the padding
-- loop of `b64UrlDecode` has fuel for its three rounds.
--
-- Parameters: JSON and UTF-8 (`Codec`; `IsAsciiCodec` for links), AES-GCM and SHA-256 (`Crypto`), the
-- stored queue (`Store`), the network as a function from requests to replies, viem's answers, lower
-- case of Unicode texts, what JSON.stringify writes of a number that is no natural number (`json_of`),
-- and tlock-js: for the page its encryption is an argument and its decryption a reply to a task. The
-- random keys, nonces and ids are arguments. Codec/Simple and Symmetric/Simple are instances of the
-- parameters that meet their laws, for the runs in Examples. Of the server: JSON.stringify with an
-- indentation, the keyed digest, the hash of a payload, which may throw, the message of an error, lower case, `nc` with
-- the device, NameStone and the providers of the chain as functions to their answers.
--
-- An `async` function runs from one await to the next as one step. A state of the page has the
-- queue, the list that the last render closed over, the ids in flight and the tasks that wait; any
-- event and any reply may come at any time. A handler of the server takes the content of the history
-- file and returns it; /submit is cut where it waits for the contract, so that other requests come in
-- between, and the requests of Server/Submit/Histories are in any order.
--
-- A property that the source casts to a number, such as the unlock time of an envelope, reads as
-- missing where the text has a value of another type, which the source would pass on as it is.
--
-- What a panel shows is a value: its lines, labels and buttons, without styles.
--
-- Not modelled: styles and layout, the background of stars, the setup of express,
-- and the programs in other languages or of deployment (docker, src, trusted-edge-oracle, scripts).
pub mod Common
pub mod Js
pub mod Base64
pub mod Bytes
pub mod Errors
pub mod Json
pub mod Codec
pub mod Http
pub mod Drand
pub mod Ctrng
pub mod Symmetric
pub mod Envelope
pub mod Queue
pub mod Share
pub mod Ens
pub mod Namestone
pub mod Usb
pub mod Wallet
pub mod View
pub mod Panels
pub mod Compose
pub mod Applet
pub mod Server
pub mod Tlock
pub mod App
pub mod Examples
