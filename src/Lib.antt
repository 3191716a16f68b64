-- ===== src/Lib.antt =====
-- The server of AuraRisk, aurarisk-backend/: a model of its reports, devices, alerts and photos, and
-- what is proved of it.
--
-- Parts. Clients reach the handlers (internal/handlers) through a rate limiter and with tokens of
-- their device. A report that is stored is compared with earlier ones for duplicates; moderators
-- decide it, or a worker verifies it by a score of the evidence; the county's responders then move
-- its response forward. A report's author attaches photos, which a worker scans and publishes.
-- Another worker alerts devices that consented about risk at the places they subscribed to.
--
-- Base          lists, options, tables and maps; Base.Runs is the way from a handler to the model: a
--               `Flow` takes the tables and, for each coming call of the database, whether it fails,
--               and gives an answer (`ok`, or `err` with the status and message of respondError),
--               the tables and the rest. A transaction that does not commit leaves the tables.
-- RateLimit     internal/handlers/ratelimit.go: new_rate_limiter, allow, sweep, middleware.
-- Auth          internal/handlers/auth.go: register_device, refresh_tokens, logout, authenticate;
--               Auth.Replay: those that write, as requests one after another;
--               Auth.Middleware: bearer_token, require_auth, optional_auth.
-- Curation      internal/services/curation.go: find_duplicate, similarity, verification_score.
-- Reports       internal/handlers/reports.go: store_report (storeReport), duplicate_in
--               (findDuplicate); Reports.Moderation: internal/handlers/moderation.go;
--               Reports.Verifier: internal/workers/verifier.go; Reports.Response:
--               internal/handlers/responders.go and internal/services/response.go.
-- Notifier      internal/workers/notifier.go (Notifier.Worker) and internal/services/quiethours.go.
-- Photos        internal/handlers/photos.go; Photos.Worker: internal/workers/photos.go.
-- Weather       internal/services/weather.go: the cache with its calls in flight, the circuit breaker
--               and the budget of calls a minute; Weather.Steps: the steps of Get, interleaved.
-- Retention     internal/workers/retention.go: clean_reports, clean_photos; Retention.Batch: what one
--               turn of cleanReports does.
-- Webhooks      internal/workers/webhooks.go: run_once, with the log of its posts.
-- Channels      internal/handlers/channels.go: Channels.Menu (ussdReply), Channels.Filing
--               (storeChannelReport, channelAccount); internal/services/kenya.go, and
--               internal/services/channels.go in Channels.Sms.
-- Migrations    internal/database/database.go: load_migrations, bootstrap, apply, migrate.
-- Imaging       internal/services/imaging.go: resized, jpeg_orientation (Imaging.Exif),
--               apply_orientation.
-- Subscriptions internal/handlers/subscriptions.go, and internal/handlers/devices.go in
--               Subscriptions.Devices, over the tables of the notifier.
-- Hydrology     internal/services/hydrology.go: lookup as lookup_begin and lookup_end, which interleave,
--               with store_bounded; Hydrology.River: river_flow_on, median.
-- Backtest      internal/backtest/backtest.go: evaluate, on the risk score and the rivers.
-- Risk          internal/services/risk.go: calculate_risk_score, score_to_level; Risk.Confidence:
--               internal/services/confidence.go; Risk.Float: Go's float64, as a record of operations.
--
-- A function of the source has its name here in lower case with underscores; a handler's early
-- returns are the branches of its definition, and an SQL statement is a function of the tables with
-- the statement's WHERE and SET clauses as a test and a change of rows. A transaction is one step,
-- as the row locks and advisory locks of the source make it where it needs them.
--
-- Numbers. Times are seconds (nanoseconds in RateLimit, Weather, Hydrology and Risk.Confidence),
-- and the server's clock and the database's are one. The tokens of a rate limiter are exact where
-- the source has floats; the verification score is an integer in the source too. Every loop is over
-- a list, or has the source's own bound (25 turns in cleanReports, three words in ParseSMS), but
-- the one over a JPEG's segments, which has the length of the data as fuel; that is enough, since
-- each turn goes on by more than one byte. The texts of Channels and Subscriptions are ASCII; of
-- other characters only the apostrophe U+2019 is read, by its three bytes.
--
-- Parameters are the code that is not in the repository (hashes and random tokens, the letters of
-- Unicode, distances on the globe, time parsing and zones, the object store, the scanner), and, of
-- the repository, what a worker is given as a callback or only calls: the push service, the risk
-- assessor, the weather and river providers, and ProcessImage, of which Imaging has what is not the
-- image codecs' or the scaling of pixels. Floats are a parameter too, with the hypotheses that
-- their order is total and that rounding keeps it.
--
-- Not modelled: the interleaving of statements of two subscription requests, which the source lets
-- go past the limit by a little; listings that only turn rows into JSON, logging, metrics, tickers,
-- request timeouts, configuration, the connection to the database, and so far the requests of
-- providers, the handlers of risk requests, the texts and translations of the channels, the public
-- data export, the events file and the summary of the offline evaluation, and the clients in
-- TypeScript.
--
-- Seen on the way: the advisory locks of internal/workers/retention.go and
-- internal/workers/webhooks.go have the same number, so the two workers exclude each other; and
-- sumPreviousHours (internal/services/risk.go) panics on hourly times much longer than hourly rain;
-- cleanReports leaves an object behind where a report and its duplicate have both expired and only
-- the duplicate's photo cannot be deleted (a test of Retention.Examples runs it); a county's
-- webhook is posted a report again when the update after a post fails; a failed lookup of a cell in
-- hydrology.go replaces the value that an overlapping lookup has just stored (a test of
-- Hydrology.Examples runs it); and channelAccount returns a variable in the expression that scans
-- into it.
pub mod Base
pub mod Auth
pub mod Backtest
pub mod Channels
pub mod Curation
pub mod Hydrology
pub mod Imaging
pub mod Migrations
pub mod Notifier
pub mod Photos
pub mod RateLimit
pub mod Reports
pub mod Retention
pub mod Risk
pub mod Subscriptions
pub mod Weather
pub mod Webhooks
