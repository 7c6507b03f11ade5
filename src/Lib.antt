-- ===== src/Lib.antt =====
-- OATI: the decisions of the TypeScript SDK, sdk/typescript/src of the repository.
--
-- An agent acts under a Mandate: a document that names its actions, resources, counterparties
-- and limits, a period, and the Mandate that it was delegated from. An Envelope describes one
-- intended transaction. `evaluateAuthority` (sdk/typescript/src/evaluator.ts) decides whether
-- the Mandate covers the Envelope, given the parent Mandate and the usage recorded so far, and
-- returns the decision, sorted reason codes and the usage to record next. `verifyDocument`
-- (sdk/typescript/src/crypto.ts) decides whether a signed document is to be trusted.
--
-- The parts and their files:
--
-- Prelude and its children: texts as lists of UTF-16 code units, lists, options, a result that
-- may throw, integers, Boolean tests over the native numbers.
--
-- Json, Json/Printing: `unknown` values and the operations that the SDK has for them: property
-- access, `===`, truth, `String(value)`. Numbers of JSON documents are integers; fractions and
-- rounding beyond 2^53 are not modelled. An object of one document is never identical to one of
-- another.
--
-- Objects, Objects/Terms: the objects of sdk/typescript/src/index.ts. Objects/Decimals:
-- `compareDecimal` and `multiplyDecimal` of that file, with NaN as `none`, and in its child modules
-- how they relate to those of evaluator.ts. Objects/Validators, Validators/Rwa:
-- `validateCommerceReceipt`, `validateMintMandate`, `validateRwaReceipt` and what they call; a
-- validator is the list of its tests with their messages, none of which has an effect. Their
-- children Facts and MintFacts: what a valid object is.
--
-- Lookup/Types, Options, Records, Headers, Request, Cache, Client: sdk/typescript/src/lookup.ts.
-- Options has the constructor, Records `isPublicRecord` and what belongs to it, Headers the
-- response (`expiry`, `rateLimitInfo`, `readPayload`'s loop), Request `requestOnce` and
-- `requestWithRetry`, Cache the entries in order of use, and Client `lookupSelectedDetailed`,
-- which tries the resolvers in turn. The network is a record of functions: what it answers to a
-- request, the clock, and the caller's signal, each of which may depend on the requests and waits
-- made so far, which are counted. The retries recur on `maxRetries` and the failover on the list
-- of resolvers, so no fuel is added. Client/Bounds, Effort, Matching, Sound, Failover: what holds
-- of any sequence of calls.
--
-- Evaluator/Decimal with its child modules: the decimal arithmetic at the end of evaluator.ts
-- (`parseDecimal`, `align`, `compareDecimal`, `addDecimal`, `multiplyDecimal`, `formatDecimal`,
-- `isDecimal`), on the characters of the strings, with `bigint` as the native numbers.
--
-- Evaluator/Types, Reasons, Conditions, Delegation, Consumption, Commerce, Rwa, Authority: the
-- rest of evaluator.ts, a function for each of its functions under the same name. Reasons has
-- the set of codes that every check extends; Conditions the shared tests; Delegation
-- `checkChildMandate` and `checkProfileSubset`; Consumption the usage and its limits; Commerce
-- and Rwa the profiles; and Authority `evaluateAuthority`, which passes the set from check to
-- check and then concludes. A check that throws ends the evaluation with that exception. Each
-- run of `if (test) add(code)` is a list of tests with their codes; the tests that may throw
-- are evaluated before the list, which changes neither the codes nor whether there is an
-- exception.
--
-- Evaluator/Kept: what every report keeps, an evaluation keeps. Evaluator/Passed: what each
-- check that reported nothing has established. Evaluator/Guarantees: what that means for an
-- allowed request, and how the reasons make the result. Evaluator/Ledger: sequences of
-- evaluations in which each starts from the usage that the last returned.
--
-- Canonical with its child modules: sdk/typescript/src/canonical.ts, the text of a document that is
-- signed and hashed.
--
-- Projection with its child modules: sdk/typescript/src/projection.ts, the record that the public
-- lookup exposes. `assertPublicJson` recurs on the document, and returns the first refusal.
--
-- Crypto/Types, Replay, Trust, Period, Proof, Key, Verify: `verifyDocument` of
-- sdk/typescript/src/crypto.ts and what it calls, a module for a group of checks, each of which
-- passes on the issues found so far: Proof has `parseProof`, Period `checkProofTime`,
-- `checkDocumentTime` and `checkSignerBinding`, Key `checkKey`, Trust `checkRevocation` and
-- `validateTrustChain`, Replay `MemoryReplayCache`, and Verify the whole, which uses any replay
-- cache. The chain visits at most `maxTrustDepth` + 1 issuers, which is the bound of the recursion,
-- so no fuel is added.
--
-- Crypto/Resolvers: `StaticTrustResolver` and `passportTrustResolver`, which fill the interface
-- of a resolver. Crypto/Sign with its child modules: `signPreparedDocument`, whose signer is a parameter.
--
-- Crypto/Base64: `base64url` and `fromBase64url`. Crypto/Ed25519: `isValidEd25519PublicKey` and its
-- arithmetic; the loop of `modPow` recurs on the exponent, which is enough since every turn halves
-- it, as Ed25519/ModPow has it.
--
-- Middleware/Types, Headers, Receipts, Flow: sdk/typescript/src/middleware.ts. An action takes the log
-- of the effects so far and returns a value or what it threw, with the new log; whatever is asked of the
-- surroundings (policies, stores, signer, handler, clock) may depend on the log. Flow has
-- `createOatiMiddleware` in the steps of its body, each of which ends in a response or goes on to the
-- next; beside the response stands the context with which the handler was called, if it was. The
-- documents are kept as they were received, and the schemas give each its object. Calls, Granted,
-- Issued, Answers: what leads to a call of the handler, and how requests are answered. Keeps, Kept, Usage: what
-- the log keeps, and the usage that the store has after any requests. The statusText of a
-- response and the statuses that `new Response` refuses are not modelled.
--
-- Parameters: the runtime (`Date.parse` and `Number` of a string, `JSON.parse`, the decoding of
-- UTF-8, `toISOString`, `toLowerCase`, the scheme of a URL), the network, the trust resolver, the
-- encoding of texts, the digests and signatures of Web Crypto, random identifiers, the schemas, and
-- what the options of the middleware supply, are arguments of what uses them. Instants are
-- milliseconds since the earliest that a `Date` can hold, so they are natural numbers. Counts of
-- calls, quantities, approvals and depths are natural numbers, as the published schemas have them.
--
-- Not modelled: `LookupTrustResolver` of crypto.ts, schema validation (ajv), discovery of services
-- and federation, lookups that overlap in time, requests that overlap inside the middleware (though
-- the usage store may refuse an update), adapters, the in-process development network, and the
-- programs and SDKs in other languages.
--
-- Tests: sample requests after conformance/evaluator/cases.json, their evaluation, and the
-- theorems at them.
pub mod Prelude
pub mod Json
pub mod Objects
pub mod Canonical
pub mod Projection
pub mod Lookup
pub mod Evaluator
pub mod Crypto
pub mod Middleware
mod Tests
